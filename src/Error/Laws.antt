-- ===== src/Error/Laws.antt =====
-- The codes are told apart by their `std::error_code`.
use async.Prelude.{◌≡◌, ◌↔◌, ℕ, zero, suc, ◌∙◌, refl, ap, sym, false}
use async.Error.{Errc, ErrorCode, make_error_code, is_error}

-- The inverse of the numbering.
of_int : ℕ → Errc
of_int zero = Errc.ok
of_int (suc zero) = Errc.invalid_argument
of_int (suc (suc zero)) = Errc.not_ready
of_int (suc (suc (suc zero))) = Errc.timeout
of_int (suc (suc (suc (suc zero)))) = Errc.canceled
of_int (suc (suc (suc (suc (suc zero))))) = Errc.closed
of_int (suc (suc (suc (suc (suc (suc zero)))))) = Errc.overflow
of_int (suc (suc (suc (suc (suc (suc (suc zero))))))) = Errc.stopped
of_int (suc (suc (suc (suc (suc (suc (suc (suc zero)))))))) = Errc.queue_full
of_int (suc (suc (suc (suc (suc (suc (suc (suc (suc zero))))))))) = Errc.rejected
of_int _ = Errc.not_supported

of_int-value : (e : Errc) → of_int (make_error_code e).value ≡ e
unfolding make_error_code of_int
of_int-value Errc.ok = refl
of_int-value _ = refl

is_error_iff : (e : Errc) → (is_error (make_error_code e) ≡ false) ↔ (e ≡ Errc.ok)
unfolding make_error_code
is_error_iff Errc.ok = (λ _. refl, λ _. refl)
is_error_iff Errc.invalid_argument = (λ h. cc, λ h. cc)
is_error_iff _ = (λ h. cc, λ h. cc)

-- Two codes have the same `std::error_code` only if they are the same code, and `ok` is the only one
-- whose `std::error_code` tests as false.
pub make_error_code_injective :
    (a b : Errc)
    → ((make_error_code a ≡ make_error_code b) ↔ (a ≡ b))
      × ((is_error (make_error_code a) ≡ false) ↔ (a ≡ Errc.ok))
make_error_code_injective a b = ((same, ap make_error_code), is_error_iff a)
  where
    same : make_error_code a ≡ make_error_code b → a ≡ b
    same h = sym (of_int-value a) ∙ ap (λ (c : ErrorCode). of_int c.value) h ∙ of_int-value b
