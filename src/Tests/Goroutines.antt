-- ===== src/Tests/Goroutines.antt =====
-- Runs of `lambdaToMesh`: two upstreams that answer, and three that cannot be reached.
use terraform_aws_consul_lam.Prelude.{
  ◌+◌, ◌*◌, ◌≤◌, ◌≡◌, refl, ◌⊎◌, Text, text, Option, some, List, [], ◌∷◌, length, arith,
  if◌then◌else◌,
}
use terraform_aws_consul_lam.Prelude.Arrivals.{Arrives, at_head, deeper, In, first}
use terraform_aws_consul_lam.Errors.{Error, ok, err, external, upstream_failed}
use terraform_aws_consul_lam.ExampleFunction.{
  Message, Response, messages, end, get_upstream_response, lambda_to_mesh, respond, status_ok,
  internal_server_error,
}
use terraform_aws_consul_lam.ExampleFunction.Outcome.{all_ok, is_none}
use terraform_aws_consul_lam.ExampleFunction.Goroutines.{
  Call, started, Step, responds, fails, receives, receives_error, returns, Reach, here, later,
}
use terraform_aws_consul_lam.ExampleFunction.Goroutines.Outcomes.{Reach-lambda_to_mesh}
use terraform_aws_consul_lam.ExampleFunction.Goroutines.Progress.{
  steps_of, lambda_to_mesh_ends, blocked_forever,
}
use terraform_aws_consul_lam.Tests.ExampleFunction.{
  Upstream, sort, two, decode, show_error, net, sent, from_b,
}

record Run (ms : List (Message (Unit {0}))) : Type 0 where
  last : Call (Unit {0})
  reach : Reach (length ms) sort (started ms) last

abbrev response_of : Text → Upstream
response_of u = record { name = u; body = some end; code = 200 }

-- The second upstream answers first, and its response is received before the other answers.
abbrev answered : Run sent
unfolding messages get_upstream_response
answered = record {
  last = _;
  reach =
      later
        (later
          (later
            (later
              (later here (
                responds (response_of (text "a")) (from_b ∷ []) (deeper (at_head refl))
                  (omega arith)))
              (receives (response_of (text "a")) [] refl (omega arith) refl))
            (responds (response_of (text "b")) [] (at_head refl) (omega arith)))
          (receives (response_of (text "b")) [] refl (omega arith) refl))
        (returns refl refl);
}

abbrev outcome : Response (Unit {0}) × Option Error
outcome = respond sort (ok (response_of (text "a") ∷ response_of (text "b") ∷ []))

Reach-lambda_to_mesh_example :
    ((received : List (Message (Unit {0}))) × Arrives sent received
      × (outcome ≡ lambda_to_mesh sort received))
    × (outcome.0.status_code ≡ (if all_ok sent then status_ok else internal_server_error))
    × (is_none outcome.1 ≡ all_ok sent)
unfolding answered
Reach-lambda_to_mesh_example =
    Reach-lambda_to_mesh decode show_error sort two net outcome answered.reach refl

lambda_to_mesh_ends_example :
    (steps_of answered.reach ≤ 2 * length sent + 1)
    × (((r : Response (Unit {0}) × Option Error) × (answered.last.result ≡ some r))
        ⊎ ((t : Call (Unit {0})) × Step (length sent) sort answered.last t))
lambda_to_mesh_ends_example = lambda_to_mesh_ends sort sent answered.reach

abbrev e : Error
e = upstream_failed (external [])

abbrev three : List (Message (Unit {0}))
three = err e ∷ err e ∷ err e ∷ []

-- Two goroutines have failed, and the error of one has been received.
abbrev failed : Run three
failed = record {
  last = _;
  reach =
      later
        (later (later here (fails e (err e ∷ err e ∷ []) (at_head refl)))
          (fails e (err e ∷ []) (at_head refl)))
        (receives_error e (e ∷ []) refl (omega arith) (at_head refl));
}

-- The third fails too.
abbrev all_failed : Run three
all_failed = record { last = _; reach = later failed.reach (fails e [] (at_head refl)) }

third_fails : Reach 3 sort failed.last all_failed.last
third_fails = later here (fails e [] (at_head refl))

blocked_forever_example :
    (all_failed.last.result ≡ some (respond sort (err e))) × In e all_failed.last.blocked
blocked_forever_example = blocked_forever (respond sort (err e)) e refl (first refl) third_fails
