-- ===== src/Prelude/Sorted.antt =====
-- Lists in order by a key, and that results with different keys can be put in order in one way only.
use mathlib.Core.Path.{◌≡◌, refl, sym, ◌∙◌, subst}
use mathlib.Core.Logic.{◌≢◌}
use mathlib.Core.Bool.{Bool, true, false, false≢true}
use mathlib.Core.List.{List, [], ◌∷◌}
use terraform_aws_consul_lam.Prelude.Lists.{All}
use terraform_aws_consul_lam.Prelude.Arrivals.{
  Arrives, In, first, further, Arrives-In, In-Arrives, All-In, Distinct, Distinct-Arrives,
}

-- What `sort.Sort` needs of its order on keys
pub record Order {ℓ} (K : Type ℓ) : Type ℓ where
  pub less : K → K → Bool
  pub asymm : (a b : K) → less a b ≡ true → less b a ≡ false
  pub trans : (a b c : K) → less a b ≡ true → less b c ≡ true → less a c ≡ true
  pub total : (a b : K) → a ≢ b → less a b ≡ false → less b a ≡ true

module _ {ℓ κ} {A : Type ℓ} {K : Type κ} (key : A → K) (o : Order K) where
  -- No element is less than one before it, which is what `sort.Sort` establishes.
  abbrev pub IsSorted : List A → Type 0
  IsSorted [] = Unit
  IsSorted (x ∷ xs) = All (λ y. o.less (key y) (key x) ≡ false) xs × IsSorted xs

  abbrev Ascends : List A → Type 0
  Ascends [] = Unit
  Ascends (x ∷ xs) = All (λ y. o.less (key x) (key y) ≡ true) xs × Ascends xs

  ascends_below :
      (x : A) (xs : List A)
      → All (λ y. o.less (key y) (key x) ≡ false) xs
      → All (λ y. key x ≢ key y) xs
      → All (λ y. o.less (key x) (key y) ≡ true) xs
  ascends_below x [] h k = tt
  ascends_below x (y ∷ xs) (h, hs) (k, ks) =
      (o.total (key y) (key x) (λ e. k (sym e)) h, ascends_below x xs hs ks)

  IsSorted-Ascends : (xs : List A) → IsSorted xs → Distinct key xs → Ascends xs
  IsSorted-Ascends [] h k = tt
  IsSorted-Ascends (x ∷ xs) (h, hs) (k, ks) = (ascends_below x xs h k, IsSorted-Ascends xs hs ks)

  irrefl : (x : A) → o.less (key x) (key x) ≢ true
  irrefl x h = false≢true (sym (o.asymm (key x) (key x) h) ∙ h)

  -- The heads of two ascending lists with the same elements
  heads_eq :
      (x y : A) (xs ys : List A)
      → Ascends (x ∷ xs)
      → Ascends (y ∷ ys)
      → In x (y ∷ ys)
      → In y (x ∷ xs)
      → x ≡ y
  heads_eq x y xs ys h k (first e) _ = e
  heads_eq x y xs ys h k (further i) (first e) = sym e
  heads_eq x y xs ys (h, _) (k, _) (further i) (further j) =
      let a = All-In (λ z. o.less (key x) (key z) ≡ true) y xs h j in
      let b = All-In (λ z. o.less (key y) (key z) ≡ true) x ys k i in
      absurd (irrefl x (o.trans (key x) (key y) (key x) a b))

  tails-In :
      (x z : A) (xs ys : List A)
      → Ascends (x ∷ xs)
      → ((w : A) → In w (x ∷ xs) → In w (x ∷ ys))
      → In z xs
      → In z ys
  tails-In x z xs ys (h, _) sub i = still (sub z (further i))
    where
      still : In z (x ∷ ys) → In z ys
      still (first e) =
          absurd (irrefl x (rw e at (All-In (λ w. o.less (key x) (key w) ≡ true) z xs h i)))
      still (further j) = j

  nothing-In : (xs : List A) → ((w : A) → In w xs → In w []) → xs ≡ []
  nothing-In [] h = refl
  nothing-In (x ∷ xs) h = elim (h x (first refl)) [ ]

  Ascends-unique :
      (xs ys : List A)
      → Ascends xs
      → Ascends ys
      → ((w : A) → In w xs → In w ys)
      → ((w : A) → In w ys → In w xs)
      → xs ≡ ys
  Ascends-unique [] ys h k f g = sym (nothing-In ys g)
  Ascends-unique (x ∷ xs) [] h k f g = nothing-In (x ∷ xs) f
  Ascends-unique (x ∷ xs) (y ∷ ys) h k f g =
      let e = heads_eq x y xs ys h k (f x (first refl)) (g y (first refl)) in
      let k' : Ascends (x ∷ ys) = subst (λ v. Ascends (v ∷ ys)) (sym e) k in
      let f' : (w : A) → In w (x ∷ xs) → In w (x ∷ ys) =
        λ w i. subst (λ v. In w (v ∷ ys)) (sym e) (f w i) in
      let g' : (w : A) → In w (x ∷ ys) → In w (x ∷ xs) =
        λ w i. g w (subst (λ v. In w (v ∷ ys)) e i) in
      let tails =
        Ascends-unique xs ys h.1 k.1 (λ w i. tails-In x w xs ys h f' i)
          (λ w i. tails-In x w ys xs k' g' i) in
      rw (e, tails) refl

  -- Results with different keys end in one order only, however they arrive and are sorted.
  pub sorted_unique :
      {results arrived arrived' xs ys : List A}
      → Distinct key results
      → Arrives results arrived
      → Arrives results arrived'
      → Arrives arrived xs
      → Arrives arrived' ys
      → IsSorted xs
      → IsSorted ys
      → xs ≡ ys
  sorted_unique {xs = xs} {ys = ys} apart r r' s s' h k =
      Ascends-unique xs ys
        (IsSorted-Ascends xs h (Distinct-Arrives key s (Distinct-Arrives key r apart)))
        (IsSorted-Ascends ys k (Distinct-Arrives key s' (Distinct-Arrives key r' apart)))
        (λ w i. Arrives-In w s' (Arrives-In w r' (In-Arrives w r (In-Arrives w s i))))
        (λ w i. Arrives-In w s (Arrives-In w r (In-Arrives w r' (In-Arrives w s' i))))
