-- ===== src/Errors.antt =====
-- The errors of both programs as data, one constructor for each message or sentinel, and Go's
-- `(value, error)` results as a sum. A constructor with an `Error` inside wraps it, as `%w` does, or prints it, as
-- `%s` does.
use terraform_aws_consul_lam.Prelude.{
  Bool, true, false, Option, none, some, Text, ◌≡◌, refl, ◌⊎◌, inl, inr,
}

pub data Error : Type 0 where
  -- What a call outside of the repository reports, by its message.
  external : Text → Error
  -- strconv
  invalid_syntax out_of_range : Error
  -- structs/service.go
  invalid_service_format : Text → Error
  invalid_service_port : Error → Error
  -- consul-lambda-registrator/trigger.go
  arn_undefined not_enterprise : Error
  unsupported_event_kind : Text → Error
  invalid_invocation_mode : Text → Error
  -- consul-lambda-registrator/upsert_event.go
  root_ca_failed : Error → Error
  no_active_root : Error
  leaf_cert_failed : Text → Error → Error
  marshal_failed : Error → Error
  -- consul-lambda-registrator/main.go
  missing_event_source : Error
  unprocessable_event_source : Text → Error
  decoding_failed : Error → Error
  converting_failed : Error → Error
  setup_failed : Error → Error
  getting_events_failed : Error → Error
  -- `multierror.Append(nil, e)` and `multierror.Append(errs, e)`
  first : Error → Error
  more : Error → Error → Error
  -- client/ssm.go
  parameter_missing : Text → Error
  -- consul-lambda-extension/extension.go
  parse_upstream_failed : Error → Error
  get_data_failed : Text → Error → Error
  unmarshal_failed : Text → Error → Error
  event_processing_failed : Error → Error
  proxy_timeout : Error
  parse_certificate_failed : Error → Error
  -- consul-lambda-extension/lambda_client.go
  next_event_failed : Error → Error
  invalid_input_type : Error
  registration_failed : Text → Error
  request_failed : Text → Error
  -- consul-lambda-extension/main.go
  configuration_failed : Error → Error
  sdk_failed : Error → Error
  register_failed : Error → Error
  -- proxy/listener.go and proxy/proxy.go
  closed_listener : Error
  dial_failed : Error → Error
  connection_failed : Error → Error
  listener_failed : Error → Error
  -- examples/lambda/src/lambda/main.go
  upstream_failed : Error → Error
  processing_failed : Error → Error

-- `resultErr = multierror.Append(resultErr, err)`
unfoldable pub append_error : Option Error → Error → Option Error
append_error none e = some (first e)
append_error (some errs) e = some (more errs e)

-- The same, as the error that it is: `multierror.Append` never returns nil here.
unfoldable pub more_error : Option Error → Error → Error
more_error none e = first e
more_error (some errs) e = more errs e

-- `errors.Is(err, errNotEnterprise)`: the sentinel itself, or an error that wraps it
unfoldable pub is_not_enterprise : Error → Bool
is_not_enterprise not_enterprise = true
is_not_enterprise (invalid_service_port e) = is_not_enterprise e
is_not_enterprise (root_ca_failed e) = is_not_enterprise e
is_not_enterprise (leaf_cert_failed _ e) = is_not_enterprise e
is_not_enterprise (marshal_failed e) = is_not_enterprise e
is_not_enterprise _ = false

-- A result with an error or a value.
pub data Result {ℓ} (A : Type ℓ) : Type ℓ where
  ok : A → Result A
  err : Error → Result A

infixl 5 ◌>>=◌
abbrev pub ◌>>=◌ {ℓ κ} : {A : Type ℓ} {B : Type κ} → Result A → (A → Result B) → Result B
ok a >>= f = f a
err e >>= f = err e

abbrev pub map_error {ℓ} : {A : Type ℓ} → (Error → Error) → Result A → Result A
map_error f (ok a) = ok a
map_error f (err e) = err (f e)

abbrev pub is_ok {ℓ} : {A : Type ℓ} → Result A → Bool
is_ok (ok _) = true
is_ok (err _) = false

module _ {ℓ κ} {A : Type ℓ} {B : Type κ} (next : A → Result B) {b : B} where
  -- A sequence that succeeds had a first part that did.
  pub >>=-eq-ok : (r : Result A) → (r >>= next) ≡ ok b → (a : A) × (next a ≡ ok b) × (r ≡ ok a)
  >>=-eq-ok (ok a) done = (a, done, refl)
  >>=-eq-ok (err x) done = cc

pub Result-cases {ℓ} :
    {A : Type ℓ} (r : Result A) → ((a : A) × (r ≡ ok a)) ⊎ ((e : Error) × (r ≡ err e))
Result-cases (ok a) = inl (a, refl)
Result-cases (err e) = inr (e, refl)

pub map_error-eq-ok {ℓ} :
    {A : Type ℓ} (f : Error → Error) (r : Result A) {a : A} → map_error f r ≡ ok a → r ≡ ok a
map_error-eq-ok f (ok a) h = h
map_error-eq-ok f (err e) h = cc
