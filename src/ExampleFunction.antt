-- ===== src/ExampleFunction.antt =====
-- examples/lambda/src/lambda/main.go: the function that calls its upstreams through the extension.
-- HTTP, the JSON codec and `sort.Sort` are parameters. The goroutines of `lambdaToMesh` send one
-- message each; the order in which their messages are received is an argument.
pub mod Outcome
pub mod Deterministic
pub mod Goroutines
use terraform_aws_consul_lam.Prelude.{
  ℕ, zero, suc, Text, text, text_eq, ◌==◌, Bool, true, false, Option, none, some, List, [], ◌∷◌,
  ◌++◌, if◌then◌else◌,
}
use terraform_aws_consul_lam.Errors.{Error, Result, ok, err, upstream_failed, processing_failed}
use terraform_aws_consul_lam.Strings.{split}

-- A decoded JSON value. The code tests only for null and for objects.
mutual
  pub data Value (A : Type 0) : Type 0 where
    null : Value A
    string : Text → Value A
    other : A → Value A
    object : Fields A → Value A

  pub data Fields (A : Type 0) : Type 0 where
    end : Fields A
    field : Text → Value A → Fields A → Fields A

-- The status codes of net/http
abbrev pub status_ok : ℕ
status_ok = 200

abbrev pub internal_server_error : ℕ
internal_server_error = 500

-- What is read of `http.Response`; reading the body may fail.
pub record HttpResponse : Type 0 where
  pub status_code : ℕ
  pub body : Result Text

module _ {A : Type 0} where
  -- `m[k]`
  unfoldable pub get_field : Text → Fields A → Option (Value A)
  get_field k end = none
  get_field k (field j v fields) = if k == j then some v else get_field k fields

-- `UpstreamResponse`, where a nil map is none
pub record UpstreamResponse (A : Type 0) : Type 0 where
  pub name : Text
  pub body : Option (Fields A)
  pub code : ℕ

-- What the response holds under "body"
pub data Body (A : Type 0) : Type 0 where
  echoed : Value A → Body A
  responses : List (UpstreamResponse A) → Body A

-- The map that the function returns
pub record Response (A : Type 0) : Type 0 where
  pub status_code : ℕ
  pub body : Option (Body A)

-- What a goroutine sends, on one of the two channels
abbrev pub Message : Type 0 → Type 0
Message A = Result (UpstreamResponse A)

module _ {A : Type 0} where
  -- `meshToLambda`
  unfoldable pub mesh_to_lambda : Value A → Response A × Option Error
  mesh_to_lambda null = (record { status_code = status_ok; body = none }, none)
  mesh_to_lambda v = (record { status_code = status_ok; body = some (echoed v) }, none)

  failure : Text → Text → UpstreamResponse A
  failure u message = record {
    name = u;
    body = some (field (text "error") (string message) end);
    code = internal_server_error;
  }

-- `unmarshal` decodes an object, or null, and `error_text` is the text of an error.
module _ {A : Type 0} (unmarshal : Text → Result (Option (Fields A)))
    (error_text : Error → Text) where
  decoded : Text → HttpResponse → Result (Option (Fields A)) → UpstreamResponse A × Option Error
  unfolding failure
  decoded u r (err e) = (failure u (text "failed to unmarshal response: " ++ error_text e), some e)
  decoded u r (ok fields) = (record { name = u; body = fields; code = r.status_code }, none)

  body_read : Text → HttpResponse → Result Text → UpstreamResponse A × Option Error
  unfolding decoded failure
  body_read u r (err e) = (failure u (text "failed to read response body"), some e)
  body_read u r (ok b) = decoded u r (unmarshal b)

  -- `getUpstreamResponse`, for what `http.Get` returns
  unfoldable pub get_upstream_response :
      Text → Result HttpResponse → UpstreamResponse A × Option Error
  unfolding body_read failure
  get_upstream_response u (err e) = (failure u (text "failed to get " ++ u), some e)
  get_upstream_response u (ok r) = body_read u r r.body

  message_of : UpstreamResponse A × Option Error → Message A
  message_of (r, none) = ok r
  message_of (r, some e) = err (upstream_failed e)

  -- The messages of the goroutines, where `net i` is what `http.Get` returns to goroutine `i`
  unfoldable pub messages : List Text → (ℕ → Result HttpResponse) → List (Message A)
  unfolding message_of
  messages [] net = []
  messages (u ∷ us) net =
      message_of (get_upstream_response u (net 0)) ∷ messages us (λ i. net (suc i))

module _ {A : Type 0} where
  -- The loop that collects the responses
  unfoldable pub collect :
      List (Message A) → List (UpstreamResponse A) → Result (List (UpstreamResponse A))
  collect [] done = ok done
  collect (ok r ∷ ms) done = collect ms (done ++ (r ∷ []))
  collect (err e ∷ ms) done = err e

  module _ (sort : List (UpstreamResponse A) → List (UpstreamResponse A)) where
    unfoldable pub respond : Result (List (UpstreamResponse A)) → Response A × Option Error
    respond (err e) =
        (record { status_code = internal_server_error; body = none }, some (processing_failed e))
    respond (ok rs) = (record { status_code = status_ok; body = some (responses (sort rs)) }, none)

    -- `lambdaToMesh`, for the order in which the messages are received
    unfoldable pub lambda_to_mesh : List (Message A) → Response A × Option Error
    unfolding respond
    lambda_to_mesh received = respond (collect received [])

    to_mesh_or_echo : List (Message A) → Fields A → Response A × Option Error
    to_mesh_or_echo received body = elim (get_field (text "lambda-to-mesh") body) [
      | some _ ↦ lambda_to_mesh received
      | none ↦ mesh_to_lambda (object body)
    ]

    with_body : List (Message A) → Fields A → Option (Value A) → Response A × Option Error
    unfolding to_mesh_or_echo
    with_body received request none = to_mesh_or_echo received request
    with_body received request (some (object body)) = to_mesh_or_echo received body
    with_body received request (some v) = mesh_to_lambda v

    -- `HandleRequest`
    unfoldable pub handle_request : List (Message A) → Value A → Response A × Option Error
    unfolding with_body
    handle_request received (object request) =
        with_body received request (get_field (text "body") request)
    handle_request received v = mesh_to_lambda v

-- The upstreams of the environment variable
unfoldable pub upstreams_of : (Text → Text) → List Text
upstreams_of getenv = split b',' (getenv (text "UPSTREAMS"))

-- `Less`, on the names
abbrev pub name_of : {A : Type 0} → UpstreamResponse A → Text
name_of r = r.name
