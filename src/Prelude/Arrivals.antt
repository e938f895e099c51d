-- ===== src/Prelude/Arrivals.antt =====
-- The orders in which results that are computed side by side may arrive.
pub mod Moves
use mathlib.Core.Path.{◌≡◌, refl, sym, ap, ◌∙◌}
use mathlib.Core.Logic.{◌≢◌, ◌⊎◌, inl, inr}
use mathlib.Core.List.{List, [], ◌∷◌, ◌++◌}
use terraform_aws_consul_lam.Prelude.Lists.{All}

-- The second list is the first with `x` put in somewhere.
pub data Inserted {ℓ} {A : Type ℓ} (x : A) : List A → List A → Type ℓ where
  at_head : {y : A} {xs : List A} → x ≡ y → Inserted x xs (y ∷ xs)
  deeper : {y : A} {xs ys : List A} → Inserted x xs ys → Inserted x (y ∷ xs) (y ∷ ys)

-- One of the outstanding results arrives after the other, whichever. A list that has been sorted
-- is such an order too.
pub data Arrives {ℓ} {A : Type ℓ} : List A → List A → Type ℓ where
  all_done : Arrives [] []
  arrives :
      (x : A) {outstanding others rest : List A}
      → Inserted x others outstanding
      → Arrives others rest
      → Arrives outstanding (x ∷ rest)

pub data In {ℓ} {A : Type ℓ} (y : A) : List A → Type ℓ where
  first : {x : A} {xs : List A} → y ≡ x → In y (x ∷ xs)
  further : {x : A} {xs : List A} → In y xs → In y (x ∷ xs)

module _ {ℓ} {A : Type ℓ} where
  pub Inserted-In : (y x : A) {xs ys : List A} → Inserted x xs ys → In y ys → (y ≡ x) ⊎ In y xs
  Inserted-In y x (at_head e) (first e') = inl (e' ∙ sym e)
  Inserted-In y x (at_head e) (further h) = inr h
  Inserted-In y x (deeper i) (first e) = inr (first e)
  Inserted-In y x (deeper i) (further h) = elim (Inserted-In y x i h) [
    | inl e ↦ inl e
    | inr k ↦ inr (further k)
  ]

  In-Inserted_self : (x : A) {xs ys : List A} → Inserted x xs ys → In x ys
  In-Inserted_self x (at_head e) = first e
  In-Inserted_self x (deeper i) = further (In-Inserted_self x i)

  In-Inserted_other : (y x : A) {xs ys : List A} → Inserted x xs ys → In y xs → In y ys
  In-Inserted_other y x (at_head e) h = further h
  In-Inserted_other y x (deeper i) (first e) = first e
  In-Inserted_other y x (deeper i) (further h) = further (In-Inserted_other y x i h)

  pub Arrives-In : (y : A) {xs ys : List A} → Arrives xs ys → In y xs → In y ys
  Arrives-In y all_done h = h
  Arrives-In y (arrives x i r) h = elim (Inserted-In y x i h) [
    | inl same ↦ first same
    | inr k ↦ further (Arrives-In y r k)
  ]

  pub In-Arrives : (y : A) {xs ys : List A} → Arrives xs ys → In y ys → In y xs
  In-Arrives y all_done h = h
  In-Arrives y (arrives x i r) (first same) = rw same (In-Inserted_self x i)
  In-Arrives y (arrives x i r) (further h) = In-Inserted_other y x i (In-Arrives y r h)

module _ {ℓ κ} {A : Type ℓ} (P : A → Type κ) where
  All-Inserted : (x : A) {xs ys : List A} → Inserted x xs ys → All P ys → P x × All P xs
  All-Inserted x (at_head e) (p, ps) = (rw e p, ps)
  All-Inserted x (deeper i) (p, ps) = let (q, rest) = All-Inserted x i ps in (q, (p, rest))

  pub All-Arrives : {xs ys : List A} → Arrives xs ys → All P xs → All P ys
  All-Arrives all_done h = tt
  All-Arrives (arrives x i r) h = let (p, rest) = All-Inserted x i h in (p, All-Arrives r rest)

  pub All-In : (y : A) (xs : List A) → All P xs → In y xs → P y
  All-In y [] h k = elim k [ ]
  All-In y (x ∷ xs) (p, h) (first e) = rw e p
  All-In y (x ∷ xs) (p, h) (further k) = All-In y xs h k

module _ {ℓ κ} {A : Type ℓ} {K : Type κ} (key : A → K) where
  -- No two of the list have the same key.
  abbrev pub Distinct : List A → Type κ
  Distinct [] = Unit
  Distinct (x ∷ xs) = All (λ y. key x ≢ key y) xs × Distinct xs

  Distinct-Inserted :
      (x : A) {xs ys : List A}
      → Inserted x xs ys
      → Distinct ys
      → All (λ y. key x ≢ key y) xs × Distinct xs
  Distinct-Inserted x (at_head e) (out, h) = (rw e out, h)
  Distinct-Inserted x (deeper {y = b} i) (out, h) =
      let (ne, others) = All-Inserted (λ y. key b ≢ key y) x i out in
      let (apart, rest) = Distinct-Inserted x i h in ((λ e. ne (sym e), apart), (others, rest))

  pub Distinct-Arrives : {xs ys : List A} → Arrives xs ys → Distinct xs → Distinct ys
  Distinct-Arrives all_done h = tt
  Distinct-Arrives (arrives x i r) h =
      let (apart, rest) = Distinct-Inserted x i h in
      (All-Arrives (λ y. key x ≢ key y) r apart, Distinct-Arrives r rest)
