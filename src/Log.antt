-- ===== src/Log.antt =====
-- include/vix/async/detail/log.hpp: the level, and what is written to the error stream. The local
-- time of a line, as text, is an argument of each call. A call holds the mutex, so that calls come
-- one after another.
mod Tests
use Prim.Native.String
use Prim.Native.String.{String}
use async.Prelude.{
  ◌≢◌, Each, ℕ, ◌≡◌, refl, ap, ◌∙◌, sym, ◌⊎◌, inl, inr, Bool, true, false, not, ◌&&◌, ◌||◌, List,
  [], ◌∷◌, ◌++◌, map, append-nil, append_assoc, arith, ltb, ◌==◌, if◌then◌else◌, Bool-cases,
}

-- `enum class log_level`; `off` is a level too.
pub data LogLevel : Type 0 where
  trace debug info warn error fatal off : LogLevel

-- The value of the enumerator.
unfoldable pub to_int : LogLevel → ℕ
to_int trace = 0
to_int debug = 1
to_int info = 2
to_int warn = 3
to_int error = 4
to_int fatal = 5
to_int off = 6

unfoldable pub to_string : LogLevel → String
to_string trace = "Trace"
to_string debug = "Debug"
to_string info = "Info"
to_string warn = "Warn"
to_string error = "Error"
to_string fatal = "Fatal"
to_string off = "Of"

-- One call of `log`: its level, the local time by then, and the message.
pub record Message : Type 0 where
  pub lvl : LogLevel
  pub time : String
  pub msg : String

-- The level, the lines on the error stream, oldest first, and whether the process was aborted.
pub record Logger : Type 0 where
  pub level : LogLevel
  pub lines : List String
  pub aborted : Bool

unfoldable pub set_log_level : LogLevel → Logger → Logger
set_log_level lvl s = record s { level = lvl }

unfoldable pub line : Message → String
unfolding to_string
line m = String.◌++◌ "[" (
    String.◌++◌ m.time (
      String.◌++◌ "] ["
        (String.◌++◌ (to_string m.lvl) (String.◌++◌ "] " (String.◌++◌ m.msg "\n")))))

abbrev pub is_fatal : Message → Bool
is_fatal m = to_int m.lvl == to_int fatal

abbrev write : Message → Logger → Logger
write m s = record s { lines = s.lines ++ line m ∷ []; aborted = is_fatal m }

unfoldable pub log : Message → Logger → Logger
log m s = if ltb (to_int m.lvl) (to_int s.level) then s else write m s

-- Calls one after another, until the process is aborted.
unfoldable pub logs : List Message → Logger → Logger
logs [] s = s
logs (m ∷ ms) s = if s.aborted then s else logs ms (log m s)

-- What a level lets through.
abbrev pub visible : LogLevel → List Message → List Message
visible level [] = []
visible level (m ∷ ms) =
    let rest = visible level ms in if ltb (to_int m.lvl) (to_int level) then rest else m ∷ rest

-- The messages up to the first fatal one, with it.
abbrev pub until_fatal : List Message → List Message
until_fatal [] = []
until_fatal (m ∷ ms) = let rest = until_fatal ms in if is_fatal m then m ∷ [] else m ∷ rest

abbrev pub any_fatal : List Message → Bool
any_fatal [] = false
any_fatal (m ∷ ms) = is_fatal m || any_fatal ms

logs-aborted : (ms : List Message) (s : Logger) → s.aborted ≡ true → logs ms s ≡ s
unfolding logs
logs-aborted [] s dead = refl
logs-aborted (m ∷ ms) s dead = rw dead refl

-- In a process that goes on, a sequence of calls writes a line for each message that is not below the
-- level, in the order of the calls, up to the first fatal one among these, and aborts the process if
-- there is one; the level stays.
pub logs_lem :
    (ms : List Message) (s : Logger)
    → s.aborted ≡ false
    → let kept = visible s.level ms in
      logs ms s
      ≡ record s { lines = s.lines ++ map line (until_fatal kept); aborted = any_fatal kept }
unfolding logs log
logs_lem [] s live = ground (arith, append-nil s.lines)
logs_lem (m ∷ ms) s live = elim (Bool-cases (ltb (to_int m.lvl) (to_int s.level))) [
  | inl low ↦ ground (arith, live, low, logs_lem ms s live)
  | inr shown ↦ elim (Bool-cases (is_fatal m)) [
    | inl dead ↦ ground (arith, live, shown, dead, logs-aborted ms (write m s) dead)
    | inr on' ↦ ground (
      arith,
      live,
      shown,
      on',
      logs_lem ms (write m s) on',
      append_assoc s.lines (line m ∷ []) (map line (until_fatal (visible s.level ms))),
    )
  ]
]

below_off : (l : LogLevel) → l ≢ off → ltb (to_int l) (to_int off) ≡ true
unfolding to_int
below_off off h = absurd (h refl)
below_off _ h = refl

-- At the level `off`, calls with any of the other levels change nothing: they write nothing, and a
-- fatal one does not abort the process.
pub off_silences :
    (ms : List Message) (s : Logger) → s.level ≡ off → Each (λ m. m.lvl ≢ off) ms → logs ms s ≡ s
unfolding logs log
off_silences [] s at h = refl
off_silences (m ∷ ms) s at h = ground (arith, at, below_off m.lvl h.0, off_silences ms s at h.1)
