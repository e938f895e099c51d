-- ===== src/Tests/Runtime.antt =====
-- The Lambda runtime as a list of answers: a registration, an event and a SHUTDOWN.
use terraform_aws_consul_lam.Prelude.{
  ◌≡◌, refl, Text, text, text_eq, true, false, none, List, [], ◌∷◌, ◌++◌,
}
use terraform_aws_consul_lam.Prelude.Int.{pos}
use terraform_aws_consul_lam.Errors.{ok, err, external}
use terraform_aws_consul_lam.Exec.{Exec}
use terraform_aws_consul_lam.Extension.{stopped}
use terraform_aws_consul_lam.Extension.LambdaClient.{
  LambdaClient, HttpApi, Request, Response, NextEvent, new_lambda, next, process_events, shutdown,
  header_extension_id,
}
use terraform_aws_consul_lam.Extension.LambdaClient.Polling.{
  turns, all_other, polled, process_events-shutdown,
}

abbrev answer : Request → Exec (List Response) Response
answer r [] = (err (external []), [])
answer r (a ∷ s) = (ok a, s)

abbrev event : Text → NextEvent
event kind = record {
  event_type = kind;
  deadline_ms = pos 5;
  request_id = text "r";
  invoked_function_arn = text "arn:f";
  tracing = record { kind = []; value = [] };
}

abbrev pub runtime : HttpApi
runtime = record {
  State = List Response;
  check_request = λ method url. ok tt;
  send = answer;
  marshal = λ d. ok (text "{}");
  unmarshal = λ body. ok (event body);
}

abbrev pub reply : Text → Response
reply body = record {
  status_code = 200;
  status = text "200 OK";
  headers = (header_extension_id, text "id-1") ∷ [];
  body = ok body;
}

abbrev pub client : LambdaClient
client = new_lambda (text "localhost")

abbrev registered : LambdaClient
registered = record client { extension_id = text "id-1" }

abbrev answers : List Response
answers = reply (text "INVOKE") ∷ reply shutdown ∷ reply (text "INVOKE") ∷ []

one_other : all_other runtime 1 registered answers ≡ true
unfolding next text_eq text
one_other = refl

then_shutdown :
    (next runtime registered (polled runtime 1 registered answers)).0 ≡ ok (event shutdown)
unfolding next
then_shutdown = refl

process_events-shutdown_example :
    process_events runtime registered (turns 1 ++ (false ∷ false ∷ [])) answers
    ≡ (stopped none, polled runtime 2 registered answers)
process_events-shutdown_example =
    process_events-shutdown runtime 1 registered answers (event shutdown) (false ∷ []) one_other
      then_shutdown refl
