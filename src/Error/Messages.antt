-- ===== src/Error/Messages.antt =====
-- The messages of the error codes.
use Prim.Native.String.{String}
use text.Mathlib.Text as Text
use async.Prelude.{
  ℕ, ◌%◌, ◌^◌, ◌≡◌, refl, Bool, true, false, Option, none, some, if◌then◌else◌, ◌==◌,
}
use async.Error.{Errc, to_int, make_error_code, message}

-- The code that a message names, if any.
pub named : String → Option Errc
named t =
    if Text.◌==◌ t "ok"
    then some Errc.ok
    else (if Text.◌==◌ t "invalid argument"
        then some Errc.invalid_argument
        else (if Text.◌==◌ t "not ready"
            then some Errc.not_ready
            else (if Text.◌==◌ t "timeout"
                then some Errc.timeout
                else (if Text.◌==◌ t "canceled"
                    then some Errc.canceled
                    else (if Text.◌==◌ t "closed"
                        then some Errc.closed
                        else (if Text.◌==◌ t "overflow"
                            then some Errc.overflow
                            else (if Text.◌==◌ t "stopped"
                                then some Errc.stopped
                                else (if Text.◌==◌ t "queue full"
                                    then some Errc.queue_full
                                    else (if Text.◌==◌ t "rejected"
                                        then some Errc.rejected
                                        else (if Text.◌==◌ t "not supported"
                                            then some Errc.not_supported
                                            else none))))))))))

named-message : (e : Errc) → named (message (make_error_code e).value) ≡ some e
unfolding named message make_error_code
named-message Errc.ok = refl
named-message _ = refl

-- The code with a number, if any.
pub of_int : ℕ → Option Errc
of_int c =
    if c == 0
    then some Errc.ok
    else (if c == 1
        then some Errc.invalid_argument
        else (if c == 2
            then some Errc.not_ready
            else (if c == 3
                then some Errc.timeout
                else (if c == 4
                    then some Errc.canceled
                    else (if c == 5
                        then some Errc.closed
                        else (if c == 6
                            then some Errc.overflow
                            else (if c == 7
                                then some Errc.stopped
                                else (if c == 8
                                    then some Errc.queue_full
                                    else (if c == 9
                                        then some Errc.rejected
                                        else (if c == 10
                                            then some Errc.not_supported
                                            else none))))))))))

of_int-to_int : (e : Errc) → of_int (to_int e) ≡ some e
unfolding of_int to_int
of_int-to_int Errc.ok = refl
of_int-to_int _ = refl

named-if : (b : Bool) (x y : String) → named (if b then x else y) ≡ (if b then named x else named y)
named-if true x y = refl
named-if false x y = refl

named-message-of_int : (c : ℕ) → named (message c) ≡ of_int (c % 2 ^ 8)
unfolding named message of_int
named-message-of_int c = simp named-if

-- A code goes into a `std::error_code` and out of its message again: the message names the code that
-- it was made from. The message of any value names the code that its last eight bits number, and no
-- code when they number none, since the cast to the enumeration drops the other bits.
pub message_roundtrip :
    (e : Errc) (c : ℕ)
    → (named (message (make_error_code e).value) ≡ some e)
      × (named (message c) ≡ of_int (c % 2 ^ 8))
      × (of_int (to_int e) ≡ some e)
message_roundtrip e c = (named-message e, named-message-of_int c, of_int-to_int e)
