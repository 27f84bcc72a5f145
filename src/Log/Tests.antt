-- ===== src/Log/Tests.antt =====
-- Three messages at the level `warn`, and a fatal one at the level `off`.
use async.Prelude.{◌≡◌, refl, true, false, List, [], ◌∷◌, map}
use async.Log.{
  LogLevel, info, warn, error, fatal, Message, Logger, to_int, to_string, line, log, logs, logs_lem,
  visible, until_fatal, any_fatal,
}

abbrev message : LogLevel → Message
message lvl = record { lvl = lvl; time = "12:00:00"; msg = "text" }

abbrev messages : List Message
messages = message error ∷ message info ∷ message fatal ∷ message warn ∷ []

abbrev logger : LogLevel → Logger
logger level = record { level = level; lines = []; aborted = false }

logs_lem_example : logs messages (logger warn) ≡ record (logger warn) {
  lines = map line (until_fatal (visible warn messages));
  aborted = any_fatal (visible warn messages);
}
logs_lem_example = logs_lem messages (logger warn) refl

two_lines : logs messages (logger warn) ≡ record (logger warn) {
  lines = "[12:00:00] [Error] text\n" ∷ "[12:00:00] [Fatal] text\n" ∷ [];
  aborted = true;
}
unfolding logs log line to_int to_string
two_lines = refl
