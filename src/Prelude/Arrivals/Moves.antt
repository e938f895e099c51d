-- ===== src/Prelude/Arrivals/Moves.antt =====
-- An order of arrivals stays one where an outstanding result takes another place.
use Prim.Native.Nat.{suc}
use mathlib.Core.Path.{◌≡◌, refl, sym, ap, ◌∙◌}
use mathlib.Core.List.{List, [], ◌∷◌, ◌++◌}
use terraform_aws_consul_lam.Prelude.Lists.{length}
use terraform_aws_consul_lam.Prelude.Arrivals.{
  Inserted, at_head, deeper, Arrives, all_done, arrives,
}

module _ {ℓ} {A : Type ℓ} where
  -- Two insertions in the other order
  Inserted-Inserted :
      (x y : A) {ys zs : List A}
      → Inserted y ys zs
      → {xs : List A} → Inserted x xs ys
      → (ws : List A) × Inserted y xs ws × Inserted x ws zs
  Inserted-Inserted x y (at_head {y = b} e) {xs} i = (b ∷ xs, at_head e, deeper i)
  Inserted-Inserted x y (deeper {ys = ys} j) (at_head e) = (ys, j, at_head e)
  Inserted-Inserted x y (deeper j) (deeper {y = b} i) =
      let (ws, j', i') = Inserted-Inserted x y j i in (b ∷ ws, deeper j', deeper i')

  -- A result that is put in on both sides
  pub Inserted-Arrives :
      (x : A) {vs ys : List A}
      → Inserted x vs ys
      → {us xs : List A} → Arrives us vs
      → Inserted x us xs
      → Arrives xs ys
  Inserted-Arrives x (at_head e) r i = rw (← e) (arrives x i r)
  Inserted-Arrives x (deeper j) (arrives h k r) i =
      let (ws, i', k') = Inserted-Inserted h x i k in arrives h k' (Inserted-Arrives x j r i')

  -- The result that stands somewhere in the order is outstanding.
  pub Arrives-Inserted :
      (x : A) {xs ws ys : List A}
      → Arrives xs ys
      → Inserted x ws ys
      → (vs : List A) × Inserted x vs xs × Arrives vs ws
  Arrives-Inserted x all_done j = elim j [ ]
  Arrives-Inserted x (arrives h {others = others} k r) (at_head e) = (others, rw e k, r)
  Arrives-Inserted x (arrives h k r) (deeper j) =
      let (us, i, r') = Arrives-Inserted x r j in
      let (vs, k', i') = Inserted-Inserted x h k i in (vs, i', arrives h k' r')

  -- A result takes another place in the order.
  pub Arrives-moved :
      (x : A) {xs ws ys zs : List A}
      → Arrives xs ys
      → Inserted x ws ys
      → Inserted x ws zs
      → Arrives xs zs
  Arrives-moved x r i j = let (vs, k, r') = Arrives-Inserted x r i in Inserted-Arrives x j r' k

  pub Arrives-refl : (xs : List A) → Arrives xs xs
  Arrives-refl [] = all_done
  Arrives-refl (x ∷ xs) = arrives x (at_head refl) (Arrives-refl xs)

  pub Inserted-append :
      (x : A) (before after : List A) → Inserted x (before ++ after) (before ++ (x ∷ after))
  Inserted-append x [] after = at_head refl
  Inserted-append x (b ∷ before) after = deeper (Inserted-append x before after)

  pub append-Inserted :
      (x : A) (before : List A) {xs ys : List A}
      → Inserted x xs ys
      → Inserted x (before ++ xs) (before ++ ys)
  append-Inserted x [] i = i
  append-Inserted x (b ∷ before) i = deeper (append-Inserted x before i)

  pub Inserted-length : (x : A) {xs ys : List A} → Inserted x xs ys → length ys ≡ suc (length xs)
  Inserted-length x (at_head e) = refl
  Inserted-length x (deeper i) = ap suc (Inserted-length x i)

  pub Arrives-length : {xs ys : List A} → Arrives xs ys → length ys ≡ length xs
  Arrives-length all_done = refl
  Arrives-length (arrives x i r) = ap suc (Arrives-length r) ∙ sym (Inserted-length x i)
