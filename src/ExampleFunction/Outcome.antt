-- ===== src/ExampleFunction/Outcome.antt =====
-- When a call of the upstreams succeeds, in whatever order they answer.
use terraform_aws_consul_lam.Prelude.{
  ℕ, ◌≡◌, refl, sym, ap, ◌∙◌, Text, Bool, true, false, ◌&&◌, Option, none, some, List, [], ◌∷◌,
  ◌++◌, append_assoc, append-nil, if◌then◌else◌, arith, Bool-cases, inl, inr,
}
use terraform_aws_consul_lam.Prelude.Arrivals.{
  Inserted, at_head, deeper, Arrives, all_done, arrives,
}
use terraform_aws_consul_lam.Errors.{Error, Result, ok, err, is_ok}
use terraform_aws_consul_lam.ExampleFunction.{
  UpstreamResponse, Message, HttpResponse, Fields, messages, collect, respond, lambda_to_mesh,
  status_ok, internal_server_error,
}

abbrev pub is_none {ℓ} : {A : Type ℓ} → Option A → Bool
is_none none = true
is_none (some _) = false

module _ {A : Type 0} where
  unfoldable pub all_ok : List (Message A) → Bool
  all_ok [] = true
  all_ok (m ∷ ms) = let rest = all_ok ms in is_ok m && rest

  -- The responses among the messages
  unfoldable pub values : List (Message A) → List (UpstreamResponse A)
  values [] = []
  values (ok r ∷ ms) = r ∷ values ms
  values (err e ∷ ms) = values ms

  all_ok-Inserted :
      (m : Message A) {ms ns : List (Message A)}
      → Inserted m ms ns
      → all_ok ns ≡ (is_ok m && all_ok ms)
  unfolding all_ok
  all_ok-Inserted m (at_head e) = rw e refl
  all_ok-Inserted m (deeper i) = ground (arith, all_ok-Inserted m i)

  pub all_ok-Arrives :
      {ms received : List (Message A)} → Arrives ms received → all_ok received ≡ all_ok ms
  unfolding all_ok
  all_ok-Arrives all_done = refl
  all_ok-Arrives (arrives m i r) =
      ap (λ b. is_ok m && b) (all_ok-Arrives r) ∙ sym (all_ok-Inserted m i)

  pub collect_lem :
      (ms : List (Message A)) (done : List (UpstreamResponse A))
      → all_ok ms ≡ true
      → collect ms done ≡ ok (done ++ values ms)
  unfolding all_ok values collect
  collect_lem [] done h = ap ok (sym (append-nil done))
  collect_lem (ok r ∷ ms) done h =
      collect_lem ms (done ++ (r ∷ [])) h ∙ ap ok (append_assoc done (r ∷ []) (values ms))
  collect_lem (err e ∷ ms) done h = cc

  collect_fails :
      (ms : List (Message A)) (done : List (UpstreamResponse A))
      → all_ok ms ≡ false
      → (e : Error) × (collect ms done ≡ err e)
  unfolding all_ok collect
  collect_fails [] done h = cc
  collect_fails (ok r ∷ ms) done h = collect_fails ms (done ++ (r ∷ [])) h
  collect_fails (err e ∷ ms) done h = (e, refl)

  status_lem :
      (sort : List (UpstreamResponse A) → List (UpstreamResponse A)) (received : List (Message A))
      → ((lambda_to_mesh sort received).0.status_code
          ≡ (if all_ok received then status_ok else internal_server_error))
        × (is_none (lambda_to_mesh sort received).1 ≡ all_ok received)
  unfolding lambda_to_mesh
  status_lem sort received = elim (Bool-cases (all_ok received)) [
    | inl fine ↦ rw (collect_lem received [] fine, fine, respond) (refl, refl)
    | inr failed ↦
        let (e, h) = collect_fails received [] failed in rw (h, failed, respond) (refl, refl)
  ]

-- In whatever order the messages of the goroutines are received: the function returns no error
-- exactly if no goroutine has failed, and the status code is 200 then, and 500 otherwise.
pub lambda_to_mesh-status_code :
    {A : Type 0} (unmarshal : Text → Result (Option (Fields A))) (error_text : Error → Text)
    (sort : List (UpstreamResponse A) → List (UpstreamResponse A)) (upstreams : List Text)
    (net : ℕ → Result HttpResponse) (received : List (Message A))
    → Arrives (messages unmarshal error_text upstreams net) received
    → ((lambda_to_mesh sort received).0.status_code ≡ (
        if all_ok (messages unmarshal error_text upstreams net)
        then status_ok
        else internal_server_error))
      × (is_none (lambda_to_mesh sort received).1
          ≡ all_ok (messages unmarshal error_text upstreams net))
lambda_to_mesh-status_code unmarshal error_text sort upstreams net received r =
    rw (← all_ok-Arrives r) (status_lem sort received)
