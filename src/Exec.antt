-- ===== src/Exec.antt =====
-- Code with effects: a call takes the state of the world and returns its result beside the state
-- that it leaves. What was done before an error stays done.
use terraform_aws_consul_lam.Prelude.{◌≡◌, refl}
use terraform_aws_consul_lam.Errors.{Error, Result, ok, err, map_error}

abbrev pub Exec {ℓ} : Type ℓ → Type ℓ → Type ℓ
Exec S A = S → Result A × S

module _ {ℓ} {S A : Type ℓ} where
  abbrev pub pure : A → Exec S A
  pure a s = (ok a, s)

  abbrev pub raise : Error → Exec S A
  raise e s = (err e, s)

  abbrev pub lift : Result A → Exec S A
  lift r s = (r, s)

  -- `if err != nil { return fmt.Errorf("…: %w", err) }`
  abbrev pub wrap : (Error → Error) → Exec S A → Exec S A
  wrap f m s = (map_error f (m s).0, (m s).1)

module _ {ℓ} {S A B : Type ℓ} where
  abbrev pub continue : Result A → (A → Exec S B) → Exec S B
  continue (ok a) f s = f a s
  continue (err e) f s = (err e, s)

  infixl 5 ◌>>=◌ ◌>>◌
  abbrev pub ◌>>=◌ : Exec S A → (A → Exec S B) → Exec S B
  ◌>>=◌ m f s = continue (m s).0 f (m s).1

  abbrev pub ◌>>◌ : Exec S A → Exec S B → Exec S B
  m >> n = m >>= λ _. n

module _ {ℓ} {S A B : Type ℓ} where
  continue-eq-ok :
      (r : Result A) (f : A → Exec S B) (s : S) {b : B}
      → (continue r f s).0 ≡ ok b
      → (a : A) × (r ≡ ok a) × (continue r f s ≡ f a s)
  continue-eq-ok (ok a) f s h = (a, refl, refl)
  continue-eq-ok (err e) f s h = cc

  -- Inversion of a sequence that succeeds: its first part did, and the rest ran from there.
  pub bind-eq-ok :
      (m : Exec S A) (f : A → Exec S B) (s : S) {b : B}
      → ((m >>= f) s).0 ≡ ok b
      → (a : A) × ((m s).0 ≡ ok a) × ((m >>= f) s ≡ f a (m s).1)
  bind-eq-ok m f s h = continue-eq-ok (m s).0 f (m s).1 h
