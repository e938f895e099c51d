-- ===== src/ExampleFunction/Goroutines/Outcomes.antt =====
-- What `lambdaToMesh` returns is what it makes of some order in which its goroutines send.
use terraform_aws_consul_lam.Prelude.{
  ℕ, ◌≡◌, sym, ap, ◌∙◌, subst, Text, Option, none, some, List, [], ◌∷◌, ◌++◌, length, length-append,
  arith, if◌then◌else◌,
}
use terraform_aws_consul_lam.Prelude.Arrivals.{Inserted, Arrives}
use terraform_aws_consul_lam.Prelude.Arrivals.Moves.{
  Arrives-moved, Arrives-refl, Inserted-append, Arrives-length,
}
use terraform_aws_consul_lam.Errors.{Error, Result, ok, err}
use terraform_aws_consul_lam.ExampleFunction.{
  UpstreamResponse, Message, Response, HttpResponse, Fields, messages, collect, respond,
  lambda_to_mesh, status_ok, internal_server_error,
}
use terraform_aws_consul_lam.ExampleFunction.Outcome.{all_ok, is_none, lambda_to_mesh-status_code}
use terraform_aws_consul_lam.ExampleFunction.Goroutines.Line.{
  sent, refused, pending, line, below, responds_line, fails_line, receives_line, collect-sent,
  length-sent, nothing_left, Inserted-append_right, refused-Inserted,
}
use terraform_aws_consul_lam.ExampleFunction.Goroutines.{
  Call, started, Step, responds, fails, receives, receives_error, returns, Reach, here, later,
}

module _ {A : Type 0} where
  -- `r` is what `lambdaToMesh` makes of an order in which the messages arrive.
  abbrev Made :
      (List (UpstreamResponse A) → List (UpstreamResponse A))
      → List (Message A)
      → Response A × Option Error
      → Type 0
  Made sort ms r =
      (received : List (Message A)) × Arrives ms received × (r ≡ lambda_to_mesh sort received)

module _ {A : Type 0} (sort : List (UpstreamResponse A) → List (UpstreamResponse A))
    (ms : List (Message A)) where
  record Inv (s : Call A) : Type 0 where
    open_ : s.result ≡ none → Arrives ms (line s)
    told : (r : Response A × Option Error) → s.result ≡ some r → Made sort ms r

  error-Made :
      (s : Call A) (e : Error) (others : List Error)
      → Inserted e others s.blocked
      → Arrives ms (line s)
      → Made sort ms (respond sort (err e))
  unfolding line sent lambda_to_mesh collect
  error-Made s e others i h =
      let rest = sent s.buffer ++ (refused others ++ s.calling) in
      let before =
        below s (err e) (Inserted-append_right (err e) s.calling (refused-Inserted e i)) in
      let received = sent s.collected ++ (err e ∷ rest) in
      let order =
        Arrives-moved (err e) h before (Inserted-append (err e) (sent s.collected) rest) in
      (received, order, ap (respond sort) (sym (collect-sent s.collected [] (err e ∷ rest))))

  all_received :
      (s : Call A) → length s.collected ≡ length ms → Arrives ms (line s) → pending s ≡ []
  unfolding line
  all_received s full h = nothing_left (pending s) (
      omega (
        arith,
        full,
        Arrives-length h,
        length-append (sent s.collected) (pending s),
        length-sent s.collected,
      ))

  responses-Made :
      (s : Call A)
      → length s.collected ≡ length ms
      → Arrives ms (line s)
      → Made sort ms (respond sort (ok s.collected))
  unfolding lambda_to_mesh line collect
  responses-Made s full h =
      let last =
        collect-sent s.collected [] (pending s)
        ∙ ap (λ x. collect x s.collected) (all_received s full h) in
      (line s, h, ap (respond sort) (sym last))

  Step-Inv : {s t : Call A} → Step (length ms) sort s t → Inv s → Inv t
  Step-Inv {s} (responds r others i room) v = record {
    open_ = λ h. responds_line ms s r others i (v.open_ h);
    told = v.told;
  }
  Step-Inv {s} (fails e others i) v = record {
    open_ = λ h. fails_line ms s e others i (v.open_ h);
    told = v.told;
  }
  Step-Inv {s} (receives r rest h lt b) v = record {
    open_ = λ k. subst (Arrives ms) (sym (receives_line s r rest b)) (v.open_ k);
    told = v.told;
  }
  Step-Inv {s} (receives_error e others h lt i) v = record {
    open_ = λ k. cc;
    told = λ r k. subst (Made sort ms) (let j = k in cc) (error-Made s e others i (v.open_ h));
  }
  Step-Inv {s} (returns h full) v = record {
    open_ = λ k. cc;
    told = λ r k. subst (Made sort ms) (let j = k in cc) (responses-Made s full (v.open_ h));
  }

  started-Inv : Inv (started ms)
  unfolding line pending sent refused
  started-Inv = record { open_ = λ h. Arrives-refl ms; told = λ r h. cc }

  Reach-Inv : {s : Call A} → Reach (length ms) sort (started ms) s → Inv s
  Reach-Inv here = started-Inv
  Reach-Inv (later r st) = Step-Inv st (Reach-Inv r)

-- Whatever the schedule of the goroutines and the choices of `select`: what `lambdaToMesh` returns
-- is what its loop makes of an order in which the messages of all goroutines may arrive. It returns
-- no error exactly if no goroutine has failed, and the status code is 200 then, and 500 otherwise.
pub Reach-lambda_to_mesh :
    {A : Type 0} (unmarshal : Text → Result (Option (Fields A))) (error_text : Error → Text)
    (sort : List (UpstreamResponse A) → List (UpstreamResponse A)) (upstreams : List Text)
    (net : ℕ → Result HttpResponse) {s : Call A} (r : Response A × Option Error)
    → Reach
        (length (messages unmarshal error_text upstreams net))
        sort
        (started (messages unmarshal error_text upstreams net))
        s
    → s.result ≡ some r
    → ((received : List (Message A)) × Arrives
          (messages unmarshal error_text upstreams net)
          received
        × (r ≡ lambda_to_mesh sort received))
      × (r.0.status_code ≡ (
          if all_ok (messages unmarshal error_text upstreams net)
          then status_ok
          else internal_server_error))
      × (is_none r.1 ≡ all_ok (messages unmarshal error_text upstreams net))
Reach-lambda_to_mesh unmarshal error_text sort upstreams net r run h =
    let (received, order, made) =
      (Reach-Inv sort (messages unmarshal error_text upstreams net) run).told r h in
    let (status, errors) =
      lambda_to_mesh-status_code unmarshal error_text sort upstreams net received order in
    ((received, order, made), rw made status, rw made errors)
