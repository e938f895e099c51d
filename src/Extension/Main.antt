-- ===== src/Extension/Main.antt =====
-- consul-lambda/consul-lambda-extension/main.go: how the extension is configured, and what `main` sets
-- up. The environment, envconfig and the SDK are parameters.
pub mod Exit
use terraform_aws_consul_lam.Prelude.{
  ℕ, Bool, Option, none, ◌≡◌, refl, sym, ap, subst, ◌∙◌, Text, text, text_eq, ◌==◌, some, [],
  if◌then◌else◌,
}
use terraform_aws_consul_lam.Prelude.Dict.{lookup}
use terraform_aws_consul_lam.Errors.{
  Error, Result, ok, err, configuration_failed, sdk_failed, register_failed, map_error-eq-ok,
}
use mathlib.Core.List.{map}
use terraform_aws_consul_lam.Client.{lower}
use terraform_aws_consul_lam.Trace.{Trace, set_enabled, set_logger}
use terraform_aws_consul_lam.Exec.{Exec, pure, wrap, lift, ◌>>=◌, bind-eq-ok}
use terraform_aws_consul_lam.Structs.{ExtensionData}
use terraform_aws_consul_lam.Extension.{Config, new_extension}
use terraform_aws_consul_lam.Extension.Start.{Process, returned, fresh, Reach}
use terraform_aws_consul_lam.Extension.LambdaClient.{
  HttpApi, LambdaClient, Response, new_lambda, register, register_request, next_request, get_header,
  header_extension_id,
}
use terraform_aws_consul_lam.Extension.LambdaClient.Polling.{register-next_request}

abbrev pub extension_name : Text
extension_name = text "consul-lambda-extension"

-- `getEnvOrDefault`
unfoldable pub get_env_or_default : (Text → Text) → Text → Text → Text
get_env_or_default getenv k d = if getenv k == [] then d else getenv k

-- The setting of TRACE_ENABLED, for `strings.ToLower` on ASCII texts
unfoldable pub trace_setting : (Text → Text) → Bool
trace_setting getenv =
    map lower (get_env_or_default getenv (text "TRACE_ENABLED") (text "false")) == text "true"

-- What `main` does to the package trace, with its own logger
unfoldable pub start_trace : {L : Type 0} → (Text → Text) → L → Trace L → Trace L
start_trace getenv logger t = set_enabled (trace_setting getenv) (set_logger (some logger) t)

-- The exit code of `main`
unfoldable pub exit_code : Option Error → ℕ
exit_code none = 0
exit_code (some e) = 1

-- The configuration, with what its fields `Events` and `Store` are set to
pub record Configured (Sdk : Type 0) : Type 0 where
  pub config : Config
  pub events : LambdaClient
  pub store : Sdk

module _ {Sdk : Type 0} (api : HttpApi) (getenv : Text → Text) (process_env : Result Config)
    (load_default_config : Result Sdk) where
  -- The registration, once the rest has been read
  register_extension : Config → Sdk → Exec api.State (Configured Sdk)
  register_extension cfg sdk = do
    client ←
        wrap register_failed
          (register api (new_lambda (getenv (text "AWS_LAMBDA_RUNTIME_API"))) (some extension_name))
    pure (record { config = cfg; events = client; store = sdk })

  load_sdk : Config → Exec api.State (Configured Sdk)
  unfolding register_extension
  load_sdk cfg = do
    sdk ← wrap sdk_failed (lift load_default_config)
    register_extension (record cfg { service_name = getenv (text "AWS_LAMBDA_FUNCTION_NAME") }) sdk

  -- `configure`
  unfoldable pub configure : Exec api.State (Configured Sdk)
  unfolding load_sdk
  configure = do cfg ← wrap configuration_failed (lift process_env); load_sdk cfg

  -- What a configuration owes to the environment and to the answer of the registration
  abbrev Outcome : api.State → Configured Sdk → Type 0
  Outcome s c =
      (c.config.service_name ≡ getenv (text "AWS_LAMBDA_FUNCTION_NAME"))
      × ((body : Text) × (res : Response) × ((api.send
              (register_request api (new_lambda (getenv (text "AWS_LAMBDA_RUNTIME_API")))
                extension_name body)
              s).0
            ≡ ok res)
          × (res.status_code ≡ 200)
          × (lookup header_extension_id (next_request api c.events).headers
              ≡ some (get_header res.headers header_extension_id)))

  -- If `configure` succeeds, then the service is named by the variable for the function's name, the
  -- extension was registered as consul-lambda-extension at the address of the runtime with an
  -- answer of status 200, and its polls carry the identifier in the header of that answer.
  pub configure-next_request :
      (c : Configured Sdk) (s : api.State)
      → (configure s).0 ≡ ok c
      → (c.config.service_name ≡ getenv (text "AWS_LAMBDA_FUNCTION_NAME"))
        × ((body : Text) × (res : Response) × ((api.send
                (register_request api
                  (new_lambda (getenv (text "AWS_LAMBDA_RUNTIME_API")))
                  extension_name
                  body)
                s).0
              ≡ ok res)
            × (res.status_code ≡ 200)
            × (lookup header_extension_id (next_request api c.events).headers
                ≡ some (get_header res.headers header_extension_id)))
  unfolding configure load_sdk register_extension
  configure-next_request c s h =
      let (cfg, _, q) = bind-eq-ok (wrap configuration_failed (lift process_env)) load_sdk s h in
      let named = record cfg { service_name = getenv (text "AWS_LAMBDA_FUNCTION_NAME") } in
      let (sdk, _, q') =
        bind-eq-ok (wrap sdk_failed (lift load_default_config)) (register_extension named) s
          (ap (λ x. x.0) (sym q) ∙ h) in
      let h' = ap (λ x. x.0) (sym q') ∙ ap (λ x. x.0) (sym q) ∙ h in
      let runtime = new_lambda (getenv (text "AWS_LAMBDA_RUNTIME_API")) in
      let (client, registered, q'') =
        bind-eq-ok (wrap register_failed (register api runtime (some extension_name))) _ s h' in
      let same : ok (record { config = named; events = client; store = sdk }) ≡ ok c =
        ap (λ x. x.0) (sym q'') ∙ h' in
      let done =
        register-next_request api runtime client extension_name s
          (map_error-eq-ok register_failed _ registered) in
      let eq : record { config = named; events = client; store = sdk } ≡ c = cc in
      subst (Outcome s) eq (refl, done)

-- `realMain`, with what it returns. The goroutine that waits for a signal, or for the context, is the
-- step `interrupts` of `Start`; `ssm` is what `NewSSM` makes of the configuration of the SDK.
module _ {Sdk : Type 0} (api : HttpApi) (getenv : Text → Text) (process_env : Result Config)
    (load_default_config : Result Sdk) {S : Type 0} (ssm : Sdk → Text → Exec S Text)
    (unmarshal : Text → Result ExtensionData) (s : api.State) where
  pub data RealMain : Option Error → Type 0 where
    misconfigured :
        (e : Error)
        → (configure api getenv process_env load_default_config s).0 ≡ err e
        → RealMain (some e)
    stops :
        (c : Configured Sdk) (p : Process) {r : Option Error}
        → (configure api getenv process_env load_default_config s).0 ≡ ok c
        → Reach (ssm c.store) unmarshal api c.events (new_extension c.config) fresh p
        → p.start ≡ returned r
        → RealMain r
