-- ===== src/ExampleFunction/Deterministic.antt =====
-- The order in which the upstreams answer does not show in the response.
use terraform_aws_consul_lam.Prelude.{
  ℕ, suc, ◌≡◌, ◌≢◌, refl, sym, ap, ◌∙◌, subst, Text, text_eq, true, Option, none, some, List, [],
  ◌∷◌, arith, All,
}
use terraform_aws_consul_lam.Prelude.Arrivals.{
  Inserted, at_head, deeper, Arrives, all_done, arrives, Distinct,
}
use terraform_aws_consul_lam.Prelude.Sorted.{Order, IsSorted, sorted_unique}
use terraform_aws_consul_lam.Errors.{Error, Result, ok, err}
use terraform_aws_consul_lam.Strings.Order.{
  text_less, text_less_asymm, text_less_trans, text_less_total,
}
use terraform_aws_consul_lam.ExampleFunction.{
  UpstreamResponse, Message, HttpResponse, Fields, Value, responses, status_ok,
  get_upstream_response, message_of, messages, respond, lambda_to_mesh, handle_request, name_of,
}
use terraform_aws_consul_lam.ExampleFunction.Outcome.{all_ok, values, all_ok-Arrives, collect_lem}

abbrev pub text_order : Order Text
text_order = record {
  less = text_less;
  asymm = text_less_asymm;
  trans = text_less_trans;
  total = text_less_total;
}

module _ {A : Type 0} where
  values-Inserted_ok :
      (m : Message A) (v : UpstreamResponse A) {ms ns : List (Message A)}
      → Inserted m ms ns
      → m ≡ ok v
      → Inserted v (values ms) (values ns)
  unfolding values
  values-Inserted_ok m v (at_head e) h = rw (sym e ∙ h) (at_head refl)
  values-Inserted_ok m v (deeper {y = ok w} i) h = deeper (values-Inserted_ok m v i h)
  values-Inserted_ok m v (deeper {y = err e} i) h = values-Inserted_ok m v i h

  values-Inserted_err :
      (m : Message A) (x : Error) {ms ns : List (Message A)}
      → Inserted m ms ns
      → m ≡ err x
      → values ns ≡ values ms
  unfolding values
  values-Inserted_err m x (at_head e) h = rw (sym e ∙ h) refl
  values-Inserted_err m x (deeper {y = ok w} i) h = ap (λ vs. w ∷ vs) (values-Inserted_err m x i h)
  values-Inserted_err m x (deeper {y = err e} i) h = values-Inserted_err m x i h

  values-Arrives :
      {ms received : List (Message A)} → Arrives ms received → Arrives (values ms) (values received)
  unfolding values
  values-Arrives all_done = all_done
  values-Arrives (arrives (ok v) i r) =
      arrives v (values-Inserted_ok (ok v) v i refl) (values-Arrives r)
  values-Arrives (arrives (err x) {rest = others} i r) =
      subst (λ vs. Arrives vs (values others)) (sym (values-Inserted_err (err x) x i refl))
        (values-Arrives r)

module _ {A : Type 0} (unmarshal : Text → Result (Option (Fields A)))
    (error_text : Error → Text) where
  get_upstream_response-name :
      (u : Text) (a : Result HttpResponse)
      → (get_upstream_response unmarshal error_text u a).0.name ≡ u
  unfolding get_upstream_response
  get_upstream_response-name u a = ground arith

  message_name :
      (P : Text → Type 0) (u : Text) (r : UpstreamResponse A × Option Error) (ms : List (Message A))
      → r.0.name ≡ u
      → P u
      → All (λ x. P x.name) (values ms)
      → All (λ x. P x.name) (values (message_of unmarshal error_text r ∷ ms))
  unfolding values message_of
  message_name P u (x, none) ms e p ps = (rw e p, ps)
  message_name P u (x, some _) ms e p ps = ps

  -- What holds of the upstreams holds of the names of the responses.
  names_lem :
      (P : Text → Type 0) (us : List Text) (net : ℕ → Result HttpResponse)
      → All P us
      → All (λ x. P x.name) (values (messages unmarshal error_text us net))
  unfolding values messages
  names_lem P [] net h = tt
  names_lem P (u ∷ us) net (p, ps) =
      message_name P u (get_upstream_response unmarshal error_text u (net 0)) _
        (get_upstream_response-name u (net 0)) p (names_lem P us (λ i. net (suc i)) ps)

  message-Distinct :
      (u : Text) (r : UpstreamResponse A × Option Error) (ms : List (Message A))
      → r.0.name ≡ u
      → All (λ x. u ≢ x.name) (values ms)
      → Distinct name_of (values ms)
      → Distinct name_of (values (message_of unmarshal error_text r ∷ ms))
  unfolding values message_of
  message-Distinct u (x, none) ms e apart rest = (rw e apart, rest)
  message-Distinct u (x, some _) ms e apart rest = rest

  messages-Distinct :
      (us : List Text) (net : ℕ → Result HttpResponse)
      → Distinct (λ u. u) us
      → Distinct name_of (values (messages unmarshal error_text us net))
  unfolding values messages
  messages-Distinct [] net h = tt
  messages-Distinct (u ∷ us) net (apart, rest) =
      message-Distinct u (get_upstream_response unmarshal error_text u (net 0)) _
        (get_upstream_response-name u (net 0)) (names_lem (λ v. u ≢ v) us (λ i. net (suc i)) apart)
        (messages-Distinct us (λ i. net (suc i)) rest)

-- What `sort.Sort` is documented to do
abbrev pub Sorts : {A : Type 0} → (List (UpstreamResponse A) → List (UpstreamResponse A)) → Type 0
Sorts {A} sort =
    (rs : List (UpstreamResponse A)) → Arrives rs (sort rs) × IsSorted name_of text_order (sort rs)

module _ {A : Type 0} (sort : List (UpstreamResponse A) → List (UpstreamResponse A)) where
  lambda_to_mesh_ok :
      (received : List (Message A))
      → all_ok received ≡ true
      → lambda_to_mesh sort received ≡ (
        record { status_code = status_ok; body = some (responses (sort (values received))) },
        none,
      )
  unfolding lambda_to_mesh
  lambda_to_mesh_ok received fine = rw (collect_lem received [] fine, respond) refl

  -- The messages show only in the outcome of `lambdaToMesh`.
  handle_request_cong :
      (sort' : List (UpstreamResponse A) → List (UpstreamResponse A)) (ms ns : List (Message A))
      (v : Value A)
      → lambda_to_mesh sort ms ≡ lambda_to_mesh sort' ns
      → handle_request sort ms v ≡ handle_request sort' ns v
  unfolding handle_request
  handle_request_cong sort' ms ns v e = ground (arith, e)

-- Let the upstreams be different, no goroutine fail, and `sort` and `sort'` sort as `sort.Sort` is
-- documented to. The function then returns the same for every order in which the messages of the
-- goroutines are received, whatever it is called with.
pub handle_request-Arrives :
    {A : Type 0} (unmarshal : Text → Result (Option (Fields A))) (error_text : Error → Text)
    (sort sort' : List (UpstreamResponse A) → List (UpstreamResponse A)) (upstreams : List Text)
    (net : ℕ → Result HttpResponse) (received received' : List (Message A)) (v : Value A)
    → Distinct (λ u. u) upstreams
    → all_ok (messages unmarshal error_text upstreams net) ≡ true
    → Sorts sort
    → Sorts sort'
    → Arrives (messages unmarshal error_text upstreams net) received
    → Arrives (messages unmarshal error_text upstreams net) received'
    → handle_request sort received v ≡ handle_request sort' received' v
handle_request-Arrives unmarshal error_text sort sort' upstreams net received received' v apart fine
      sorts sorts' r r' =
    let (s, h) = sorts (values received) in
    let (s', h') = sorts' (values received') in
    let same =
      sorted_unique name_of text_order (messages-Distinct unmarshal error_text upstreams net apart)
        (values-Arrives r) (values-Arrives r') s s' h h' in
    let first_run = lambda_to_mesh_ok sort received (all_ok-Arrives r ∙ fine) in
    let second_run = lambda_to_mesh_ok sort' received' (all_ok-Arrives r' ∙ fine) in
    handle_request_cong sort sort' received received' v (first_run ∙ rw same refl ∙ sym second_run)
