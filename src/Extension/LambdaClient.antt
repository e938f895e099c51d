-- ===== src/Extension/LambdaClient.antt =====
-- consul-lambda/consul-lambda-extension/lambda_client.go: the client of the Lambda runtime API. The
-- HTTP client and the JSON codec are parameters; the context shows as the signals that the loop
-- meets.
pub mod Polling
use terraform_aws_consul_lam.Prelude.{
  ℕ, Text, text, ◌==◌, text_eq, Bool, true, false, not, Option, none, some, List, [], ◌∷◌, ◌++◌,
  eqb, if◌then◌else◌,
}
use terraform_aws_consul_lam.Prelude.Int.{ℤ}
use terraform_aws_consul_lam.Prelude.Dict.{Dict, lookup, insert}
use terraform_aws_consul_lam.Errors.{
  Error, Result, ok, err, next_event_failed, invalid_input_type, registration_failed,
  request_failed,
}
use terraform_aws_consul_lam.Errors as Errors
use terraform_aws_consul_lam.Exec.{Exec, pure, raise, lift, ◌>>=◌, ◌>>◌}
use terraform_aws_consul_lam.Extension.{Outcome, running, stopped}

-- `Lambda`
pub record LambdaClient : Type 0 where
  pub base_url : Text
  pub extension_id : Text

-- `Tracing`
pub record Tracing : Type 0 where
  pub kind : Text
  pub value : Text

-- `NextEventResponse`
pub record NextEvent : Type 0 where
  pub event_type : Text
  pub deadline_ms : ℤ
  pub request_id : Text
  pub invoked_function_arn : Text
  pub tracing : Tracing

abbrev pub shutdown : Text
shutdown = text "SHUTDOWN"

abbrev pub header_extension_name : Text
header_extension_name = text "Lambda-Extension-Name"

abbrev pub header_extension_id : Text
header_extension_id = text "Lambda-Extension-Identifier"

-- What the program sets of `http.Request` and reads of `http.Response`; reading the body may fail.
pub record Request : Type 0 where
  pub method : Text
  pub url : Text
  pub body : Option Text
  pub headers : Dict Text Text

pub record Response : Type 0 where
  pub status_code : ℕ
  pub status : Text
  pub headers : Dict Text Text
  pub body : Result Text

pub record HttpApi : Type 1 where
  pub State : Type 0
  -- `http.NewRequestWithContext` refuses some methods and URLs.
  pub check_request : Text → Text → Result (Unit {0})
  pub send : Request → Exec State Response
  -- `json.Marshal` of the map to a list of events, `json.Unmarshal` of an event
  pub marshal : Dict Text (List Text) → Result Text
  pub unmarshal : Text → Result NextEvent

-- `NewLambda`, from the value of `AWS_LAMBDA_RUNTIME_API`
unfoldable pub new_lambda : Text → LambdaClient
new_lambda runtime_api = record {
  base_url = text "http://" ++ (runtime_api ++ text "/2020-01-01/extension");
  extension_id = [];
}

header_or_empty : Option Text → Text
header_or_empty none = []
header_or_empty (some v) = v

-- `Header.Get`, of a name in its canonical form
unfoldable pub get_header : Dict Text Text → Text → Text
unfolding header_or_empty
get_header headers name = header_or_empty (lookup name headers)

module _ (api : HttpApi) where
  open api use {State, check_request, send, marshal, unmarshal}

  -- The request of `Register`
  unfoldable pub register_request : LambdaClient → Text → Text → Request
  register_request c name body = record {
    method = text "POST";
    url = c.base_url ++ text "/register";
    body = some body;
    headers = insert header_extension_name name [];
  }

  register_answer : LambdaClient → Response → Result LambdaClient
  register_answer c res =
      if eqb res.status_code 200
      then ok (record c { extension_id = get_header res.headers header_extension_id })
      else err (registration_failed res.status)

  -- `Register`, of a value that is a string or none. It gives the client with its new identifier,
  -- and where it fails the client stays as it was.
  unfoldable pub register : LambdaClient → Option Text → Exec State LambdaClient
  unfolding register_answer
  register c none = raise invalid_input_type
  register c (some name) = do
    body ← lift (marshal ((text "events", shutdown ∷ []) ∷ []))
    _ ← lift (check_request (text "POST") (c.base_url ++ text "/register"))
    res ← send (register_request c name body)
    lift (register_answer c res)

  -- The request of `next`
  unfoldable pub next_request : LambdaClient → Request
  next_request c = record {
    method = text "GET";
    url = c.base_url ++ text "/event/next";
    body = none;
    headers = insert header_extension_id c.extension_id [];
  }

  next_answer : Response → Result NextEvent
  next_answer res =
      if eqb res.status_code 200
      then Errors.◌>>=◌ res.body unmarshal
      else err (request_failed res.status)

  -- `next`
  unfoldable pub next : LambdaClient → Exec State NextEvent
  unfolding next_answer
  next c = do
    _ ← lift (check_request (text "GET") (c.base_url ++ text "/event/next"))
    res ← send (next_request c)
    lift (next_answer res)

  -- `ProcessEvents`, over what the test of the context says in each turn: whether it is done.
  unfoldable pub process_events : LambdaClient → List Bool → State → Outcome × State
  process_events c [] s = (running, s)
  process_events c (true ∷ _) s = (stopped none, s)
  process_events c (false ∷ turns) s =
      let rest = process_events c turns (next c s).1 in
      elim (next c s).0 [
        | err e ↦ (stopped (some (next_event_failed e)), (next c s).1)
        | ok res ↦ if res.event_type == shutdown then (stopped none, (next c s).1) else rest
      ]
