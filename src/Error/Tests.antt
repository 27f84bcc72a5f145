-- ===== src/Error/Tests.antt =====
-- The error codes at concrete values.
use async.Prelude.{◌≡◌, refl, some}
use async.Error.{Errc, message, make_error_code, to_int}
use async.Error.Messages.{named, of_int, message_roundtrip}

message_canceled : message (to_int Errc.canceled) ≡ "canceled"
unfolding message to_int
message_canceled = refl

message_unknown : message 11 ≡ "unknown error"
unfolding message
message_unknown = refl

message_roundtrip_example :
    (named (message (make_error_code Errc.timeout).value) ≡ some Errc.timeout)
    × (named (message 300) ≡ of_int 44)
    × (of_int (to_int Errc.timeout) ≡ some Errc.timeout)
message_roundtrip_example = message_roundtrip Errc.timeout 300
