-- ===== src/Completion.antt =====
-- What a coroutine or an `await_resume` of the library ends with. C++ exceptions are values here.
use async.Prelude.{if◌then◌else◌}
use async.Error.{ErrorCode, is_error}

-- `std::system_error` with its code, or an exception of the user's code.
pub data Exception (E : Type 0) : Type 0 where
  system_error : ErrorCode → Exception E
  thrown : E → Exception E

-- `undefined` stands for undefined behaviour: a null coroutine handle or an empty `std::optional`
-- that is dereferenced.
pub data Completion (E : Type 0) (A : Type 0) : Type 0 where
  returns : A → Completion E A
  throws : Exception E → Completion E A
  undefined : Completion E A

infixl 5 ◌>>=◌
abbrev pub ◌>>=◌ : {E A B : Type 0} → Completion E A → (A → Completion E B) → Completion E B
returns a >>= f = f a
throws x >>= f = throws x
undefined >>= f = undefined

-- `if (ec) throw std::system_error(ec);`
abbrev pub attempt : {E : Type 0} → ErrorCode → Completion E (Unit {0})
attempt ec = if is_error ec then throws (system_error ec) else returns tt
