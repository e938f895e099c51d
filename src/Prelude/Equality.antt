-- ===== src/Prelude/Equality.antt =====
-- Go's `==`, for every type whose equality can be decided, and the texts: a Go string is the list
-- of its bytes. A decision stays shut in proofs, where a split on `a == b` yields the equation or
-- its negation.
use Prim.Native.Nat.{ℕ}
use Prim.Native.Char.{code}
use Prim.Native.String.{String}
use mathlib.Core.Path.{◌≡◌}
use mathlib.Core.Logic.{◌↔◌, ite, dite}
use mathlib.Core.Bool.{Bool, true, false, ◌&&◌, Bool-discrete}
use mathlib.Core.List.{List, [], ◌∷◌}
use native.Mathlib.Omega.{arith}
use terraform_aws_consul_lam.Prelude.Tests.{eqb}

pub record Eq {ℓ} (A : Type ℓ) : Type ℓ where
  pub dec : Discrete A

module _ {ℓ} {A : Type ℓ} ⦃e : Eq A⦄ where
  infix 50 ◌==◌
  abbrev pub ◌==◌ : A → A → Bool
  a == b = ite (e.dec a b) true false

-- A Go string: its bytes.
abbrev pub Text : Type 0
Text = List ℕ

-- The bytes of a literal, which is ASCII everywhere in the program.
unfoldable pub text : String → Text
text String.[] = []
text (String.◌∷◌ c s) = code c ∷ text s

unfoldable pub same : Text → Text → Bool
same [] [] = true
same [] (_ ∷ _) = false
same (_ ∷ _) [] = false
same (a ∷ s) (b ∷ t) = eqb a b && same s t

pub same_iff : (s t : Text) → (same s t ≡ true) ↔ (s ≡ t)
unfolding same
same_iff [] [] = ground arith
same_iff [] (_ ∷ _) = ground arith
same_iff (_ ∷ _) [] = ground arith
same_iff (a ∷ s) (b ∷ t) = ground (arith, same_iff s t)

unfoldable pub text_discrete : Discrete Text
unfolding same
text_discrete s t =
    dite (Bool-discrete (same s t) true) (λ h. yes ((same_iff s t).0 h))
      (λ h. no (λ p. h ((same_iff s t).1 p)))

instance unfoldable pub text_eq : Eq Text
unfolding text_discrete
text_eq = record { dec = text_discrete }
