-- ===== src/Result.antt =====
-- A call that may raise `AppError`: its value, or the error.
use mcp_assist_memory.Prelude.{◌≡◌, refl, ◌⊎◌, inl, inr, Bool, true, false}
use mcp_assist_memory.Errors.{Code, AppError, raised}

pub data Result {ℓ} (V : Type ℓ) : Type ℓ where
  err : AppError → Result V
  ok : V → Result V

module _ {ℓ} {V W : Type ℓ} where
  infixl 5 ◌>>=◌
  -- The call that follows runs on the value, unless an error was raised before it.
  abbrev pub ◌>>=◌ : Result V → (V → Result W) → Result W
  err raised_before >>= next = err raised_before
  ok value >>= next = next value

  -- What is known where two calls in a row return a value.
  pub >>=-ok :
      (first : Result V) (next : V → Result W) {w : W}
      → (first >>= next) ≡ ok w
      → (v : V) × (first ≡ ok v) × (next v ≡ ok w)
  >>=-ok (err e) next returned = cc
  >>=-ok (ok v) next returned = (v, refl, returned)

module _ {W : Type 0} where
  infixl 5 ◌>>◌
  abbrev pub ◌>>◌ : Result (Unit {0}) → Result W → Result W
  test >> next = test >>= λ done. next

  -- A test was passed where the call that follows it returns a value.
  pub >>-ok :
      (test : Result (Unit {0})) (next : Result W) {w : W}
      → (test >> next) ≡ ok w
      → (test ≡ ok tt) × (next ≡ ok w)
  >>-ok (err e) next returned = cc
  >>-ok (ok tt) next returned = (refl, returned)

module _ {ℓ} {V : Type ℓ} where
  -- `raise AppError(code, …)`
  abbrev pub raise : Code → Result V
  raise code = err (raised code)

  pub Result-cases :
      (call : Result V) → ((v : V) × (call ≡ ok v)) ⊎ ((e : AppError) × (call ≡ err e))
  Result-cases (err e) = inr (e, refl)
  Result-cases (ok v) = inl (v, refl)

-- `if test: raise AppError(code, …)`
abbrev pub raise_if : Bool → Code → Result (Unit {0})
raise_if true code = raise code
raise_if false code = ok tt
