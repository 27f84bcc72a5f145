-- ===== src/Error.antt =====
-- include/vix/async/core/error.hpp: the error codes, and what `std::error_code` keeps of them.
pub mod Laws
pub mod Messages
mod Tests
use Prim.Native.String.{String}
use async.Prelude.{ℕ, ◌%◌, ◌^◌, Bool, ◌==◌, not, if◌then◌else◌}

-- `enum class errc : std::uint8_t`, in the order of the source.
pub data Errc : Type 0 where
  ok invalid_argument not_ready timeout canceled closed overflow stopped queue_full rejected
        not_supported :
      Errc

-- `static_cast<int>(e)`: the position in the enumeration.
unfoldable pub to_int : Errc → ℕ
to_int ok = 0
to_int invalid_argument = 1
to_int not_ready = 2
to_int timeout = 3
to_int canceled = 4
to_int closed = 5
to_int overflow = 6
to_int stopped = 7
to_int queue_full = 8
to_int rejected = 9
to_int not_supported = 10

-- The categories that occur: this library's, and any other by a number (asio's, the system's).
pub data Category : Type 0 where
  async_core : Category
  foreign : ℕ → Category

-- The C++ library's `std::error_code`: a value and a category. It is false when the value is 0.
pub record ErrorCode : Type 0 where
  pub value : ℕ
  pub category : Category

abbrev pub is_error : ErrorCode → Bool
is_error e = not (e.value == 0)

-- `std::error_code{}`
abbrev pub no_error : ErrorCode
no_error = record { value = 0; category = Category.foreign 0 }

unfoldable pub make_error_code : Errc → ErrorCode
unfolding to_int
make_error_code e = record { value = to_int e; category = Category.async_core }

-- `error_category::name`
unfoldable pub name : String
name = "async"

-- `error_category::message`, over the result of `static_cast<errc>(c)`: `c` modulo 2 ^ 8 (the
-- caller gives a non-negative `int`).
unfoldable pub message : ℕ → String
message c =
    let e = c % 2 ^ 8 in
    if e == 0
    then "ok"
    else (if e == 1
        then "invalid argument"
        else (if e == 2
            then "not ready"
            else (if e == 3
                then "timeout"
                else (if e == 4
                    then "canceled"
                    else (if e == 5
                        then "closed"
                        else (if e == 6
                            then "overflow"
                            else (if e == 7
                                then "stopped"
                                else (if e == 8
                                    then "queue full"
                                    else (if e == 9
                                        then "rejected"
                                        else (if e == 10
                                            then "not supported"
                                            else "unknown error"))))))))))
