-- ===== src/Strings/Order.antt =====
-- Go's `<` on strings, which compares their bytes.
use terraform_aws_consul_lam.Prelude.{
  ◌≡◌, ◌≢◌, refl, Bool, true, false, [], ◌∷◌, Text, ltb, if◌then◌else◌, arith,
}

unfoldable pub text_less : Text → Text → Bool
text_less [] [] = false
text_less [] (_ ∷ _) = true
text_less (_ ∷ _) [] = false
text_less (a ∷ s) (b ∷ t) =
    let rest = text_less s t in if ltb a b then true else if ltb b a then false else rest

pub text_less_asymm : (s t : Text) → text_less s t ≡ true → text_less t s ≡ false
unfolding text_less
text_less_asymm [] [] = ground arith
text_less_asymm [] (_ ∷ _) = ground arith
text_less_asymm (_ ∷ _) [] = ground arith
text_less_asymm (a ∷ s) (b ∷ t) = ground (arith, text_less_asymm s t)

pub text_less_trans :
    (s t u : Text) → text_less s t ≡ true → text_less t u ≡ true → text_less s u ≡ true
unfolding text_less
text_less_trans [] [] u = λ h k. cc
text_less_trans [] (_ ∷ _) [] = λ h k. cc
text_less_trans [] (_ ∷ _) (_ ∷ _) = λ h k. refl
text_less_trans (_ ∷ _) [] u = λ h k. cc
text_less_trans (_ ∷ _) (_ ∷ _) [] = λ h k. cc
text_less_trans (a ∷ s) (b ∷ t) (c ∷ u) = ground (arith, text_less_trans s t u)

-- Of two texts that are not the same one is less.
pub text_less_total : (s t : Text) → s ≢ t → text_less s t ≡ false → text_less t s ≡ true
unfolding text_less
text_less_total [] [] ne h = absurd (ne refl)
text_less_total [] (_ ∷ _) ne h = cc
text_less_total (_ ∷ _) [] ne h = refl
text_less_total (a ∷ s) (b ∷ t) ne h = ground (arith, text_less_total s t)
