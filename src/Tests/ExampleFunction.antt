-- ===== src/Tests/ExampleFunction.antt =====
-- The example function with two upstreams that answer in either order.
use terraform_aws_consul_lam.Prelude.{
  ℕ, ◌≡◌, ◌≢◌, refl, ap, Text, text, text_eq, true, false, Option, some, List, [], ◌∷◌, All,
  if◌then◌else◌, arith, Bool-cases, inl, inr,
}
use mathlib.Core.Bool.{false≢true}
use terraform_aws_consul_lam.Prelude.Arrivals.{
  Inserted, at_head, deeper, Arrives, all_done, arrives, Distinct,
}
use terraform_aws_consul_lam.Prelude.Arrivals.Moves.{Inserted-Arrives, Arrives-refl}
use terraform_aws_consul_lam.Prelude.Sorted.{IsSorted}
use terraform_aws_consul_lam.Errors.{Error, Result, ok}
use terraform_aws_consul_lam.Strings.Order.{text_less, text_less_asymm, text_less_trans}
use terraform_aws_consul_lam.ExampleFunction.{
  UpstreamResponse, Message, HttpResponse, Fields, field, end, Value, null, object, messages,
  get_upstream_response, handle_request, name_of,
}
use terraform_aws_consul_lam.ExampleFunction.Outcome.{all_ok}
use terraform_aws_consul_lam.ExampleFunction.Deterministic.{
  Sorts, text_order, handle_request-Arrives,
}

abbrev pub Upstream : Type 0
Upstream = UpstreamResponse (Unit {0})

-- An insertion sort, which does what `sort.Sort` is documented to do
insert : Upstream → List Upstream → List Upstream
insert x [] = x ∷ []
insert x (y ∷ ys) =
    let rest = insert x ys in if text_less x.name y.name then x ∷ y ∷ ys else y ∷ rest

pub sort : List Upstream → List Upstream
sort [] = []
sort (x ∷ xs) = insert x (sort xs)

insert-Inserted : (x : Upstream) (ys : List Upstream) → Inserted x ys (insert x ys)
unfolding insert
insert-Inserted x [] = at_head refl
insert-Inserted x (y ∷ ys) = elim (Bool-cases (text_less x.name y.name)) [
  | inl less ↦ rw less (at_head refl)
  | inr more ↦ rw more (deeper (insert-Inserted x ys))
]

sort-Arrives : (xs : List Upstream) → Arrives xs (sort xs)
unfolding sort
sort-Arrives [] = all_done
sort-Arrives (x ∷ xs) =
    Inserted-Arrives x (insert-Inserted x (sort xs)) (sort-Arrives xs) (at_head refl)

insert-All :
    (P : Upstream → Type 0) (x : Upstream) (ys : List Upstream)
    → P x
    → All P ys
    → All P (insert x ys)
unfolding insert
insert-All P x [] p ps = (p, ps)
insert-All P x (y ∷ ys) p (q, qs) = elim (Bool-cases (text_less x.name y.name)) [
  | inl less ↦ rw less (p, (q, qs))
  | inr more ↦ rw more (q, insert-All P x ys p qs)
]

below_all :
    (x y : Upstream) (ys : List Upstream)
    → text_less x.name y.name ≡ true
    → All (λ z. text_less z.name y.name ≡ false) ys
    → All (λ z. text_less z.name x.name ≡ false) ys
below_all x y [] less h = tt
below_all x y (z ∷ ys) less (p, ps) =
    (ground (arith, text_less_trans z.name x.name y.name), below_all x y ys less ps)

insert-IsSorted :
    (x : Upstream) (ys : List Upstream)
    → IsSorted name_of text_order ys
    → IsSorted name_of text_order (insert x ys)
unfolding insert
insert-IsSorted x [] h = (tt, tt)
insert-IsSorted x (y ∷ ys) (p, h) = elim (Bool-cases (text_less x.name y.name)) [
  | inl less ↦ rw less ((text_less_asymm x.name y.name less, below_all x y ys less p), (p, h))
  | inr more ↦ rw more (insert-All _ x ys more p, insert-IsSorted x ys h)
]

sort-IsSorted : (xs : List Upstream) → IsSorted name_of text_order (sort xs)
unfolding sort
sort-IsSorted [] = tt
sort-IsSorted (x ∷ xs) = insert-IsSorted x (sort xs) (sort-IsSorted xs)

sort-Sorts : Sorts sort
sort-Sorts rs = (sort-Arrives rs, sort-IsSorted rs)

abbrev pub two : List Text
two = text "b" ∷ text "a" ∷ []

-- The codec of bodies that are all empty objects
abbrev pub decode : Text → Result (Option (Fields (Unit {0})))
decode body = ok (some end)

abbrev pub show_error : Error → Text
show_error e = []

abbrev pub net : ℕ → Result HttpResponse
net i = ok (record { status_code = 200; body = ok (text "{}") })

abbrev pub sent : List (Message (Unit {0}))
sent = messages decode show_error two net

abbrev pub from_a : Message (Unit {0})
from_a = ok (record { name = text "a"; body = some end; code = 200 })

abbrev pub from_b : Message (Unit {0})
from_b = ok (record { name = text "b"; body = some end; code = 200 })

-- They answer in this order, or the second answers first.
in_order : Arrives sent (from_b ∷ from_a ∷ [])
unfolding messages get_upstream_response
in_order = Arrives-refl (from_b ∷ from_a ∷ [])

swapped : Arrives sent (from_a ∷ from_b ∷ [])
unfolding messages get_upstream_response
swapped = arrives from_a (deeper (at_head refl)) (Arrives-refl (from_b ∷ []))

apart : text "b" ≢ text "a"
unfolding text_less text
apart e = false≢true (ap (λ s. text_less s (text "b")) e)

two-Distinct : Distinct (λ u. u) two
two-Distinct = ((apart, tt), (tt, tt))

abbrev event : Value (Unit {0})
event = object (field (text "lambda-to-mesh") null end)

handle_request-Arrives_example :
    handle_request sort (from_b ∷ from_a ∷ []) event
    ≡ handle_request sort (from_a ∷ from_b ∷ []) event
unfolding messages all_ok get_upstream_response
handle_request-Arrives_example =
    handle_request-Arrives decode show_error sort sort two net (from_b ∷ from_a ∷ [])
      (from_a ∷ from_b ∷ []) event two-Distinct refl sort-Sorts sort-Sorts in_order swapped
