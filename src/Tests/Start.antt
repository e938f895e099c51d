-- ===== src/Tests/Start.antt =====
-- Runs of `Start`: a SHUTDOWN, a listener that cannot be opened, and what the proxy dials with.
use terraform_aws_consul_lam.Prelude.{
  ◌≡◌, ◌≢◌, ◌==◌, ℕ, if◌then◌else◌, refl, ◌⊎◌, Text, text, text_eq, true, false, none, some, [],
  ◌∷◌,
}
use mathlib.Core.List.{map}
use terraform_aws_consul_lam.Prelude.Int.{pos}
use terraform_aws_consul_lam.Errors.{Error, ok, external, listener_failed, proxy_timeout}
use terraform_aws_consul_lam.Structs.{no_service, sni}
use terraform_aws_consul_lam.Extension.{Extension, set_trust_domain, new_extension, refresh, tick}
use terraform_aws_consul_lam.Extension.LambdaClient.{
  new_lambda, Response, register_request, next_request, get_header, header_extension_id, register,
  next, process_events, shutdown,
}
use terraform_aws_consul_lam.Extension.Dial.{Crypto, tls_config}
use terraform_aws_consul_lam.Extension.Dial.Targets.{refresh-tls_config}
use terraform_aws_consul_lam.Extension.Start.{
  Process, fresh, waiting, returned, serving, unborn, reporting, Reach, here, later, parses, opens,
  server_fails, select_ends, got_ready, timed_out, start_proxy, events_end, events_report_ends,
}
use terraform_aws_consul_lam.Extension.Start.Silence.{start_hides_error}
use terraform_aws_consul_lam.Prelude.Dict.{lookup}
use terraform_aws_consul_lam.Trace.{new_trace}
use terraform_aws_consul_lam.Extension.Main.{
  start_trace, Configured, configure, extension_name, configure-next_request, RealMain, stops,
  exit_code,
}
use terraform_aws_consul_lam.Extension.Main.Exit.{ToldToEnd, exit_code-RealMain}
use terraform_aws_consul_lam.Tests.Runtime.{runtime, client, reply}
use terraform_aws_consul_lam.Tests.Extension.{extension_config, started, started_lem, handed_over}
use terraform_aws_consul_lam.Tests.Memory.{memory_get, sample_unmarshal}

abbrev Run : Process → Type 0
Run = Reach memory_get sample_unmarshal runtime client (new_extension extension_config) fresh

record Ended : Type 0 where
  last : Process
  run : Run last

serving_ne : serving ≢ unborn
serving_ne k = cc

never : false ≡ true → false ≡ true
never k = k

abbrev port_taken : Error
port_taken = external (text "address already in use")

-- The port of the upstream is taken, which is noticed before `Start` goes on.
abbrev failed : Ended
failed = record {
  last = _;
  run =
      later (later here (parses started refl started_lem))
        (server_fails port_taken true refl (λ k. refl));
}

start_hides_error_example :
    ((returned (some proxy_timeout) ≡ waiting)
      ⊎ (returned (some proxy_timeout) ≡ returned (some proxy_timeout)))
    × (failed.last.server ≡ reporting (listener_failed port_taken))
unfolding start_proxy
start_hides_error_example =
    start_hides_error memory_get sample_unmarshal runtime client (new_extension extension_config)
      {p = failed.last} (listener_failed port_taken) refl refl refl refl refl
      (later here (select_ends timed_out refl refl)) refl

-- Texts as their own certificates, and pairs of texts
abbrev plain : Crypto
plain = record {
  Pool = Text;
  KeyPair = Text × Text;
  Certificate = Text;
  pool_of = λ pem. pem;
  x509_key_pair = λ c k. ok (c, k);
  parse_certificate = λ raw. ok raw;
  verify = λ c roots others. ok tt;
}

abbrev after : Extension
after = (refresh memory_get sample_unmarshal (tick ∷ []) started handed_over).0.1

refresh-tls_config_example :
    map (tls_config plain (text "dev") after) after.upstreams
    ≡ ok (record {
      root_cas = after.data_held.root_cert_pem;
      certificate = (after.data_held.cert_pem, after.data_held.private_key_pem);
      server_name = sni (
          set_trust_domain after.data_held.trust_domain
            (record no_service { name = text "web"; port = pos 1234 }));
      insecure_skip_verify = text "dev" == text "dev";
    })
      ∷ []
refresh-tls_config_example =
    refresh-tls_config plain (text "dev") memory_get sample_unmarshal extension_config started after
      (tick ∷ []) handed_over (after.data_held.cert_pem, after.data_held.private_key_pem)
      started_lem refl refl

abbrev one : ℕ
one = 1

-- The environment of a function f at a local runtime
abbrev variable : Text → Text
variable k = if k == text "AWS_LAMBDA_FUNCTION_NAME" then text "f" else text "localhost"

abbrev configured : Configured ℕ
configured = record {
  config = record extension_config { service_name = variable (text "AWS_LAMBDA_FUNCTION_NAME") };
  events = record (new_lambda (variable (text "AWS_LAMBDA_RUNTIME_API"))) {
    extension_id = text "id-1";
  };
  store = one;
}

configured_lem :
    (configure runtime variable (ok extension_config) (ok one) (reply [] ∷ [])).0 ≡ ok configured
unfolding configure register text get_header lookup text_eq
configured_lem = refl

configure-next_request_example :
    (configured.config.service_name ≡ variable (text "AWS_LAMBDA_FUNCTION_NAME"))
    × ((body : Text) × (res : Response) × ((runtime.send
            (register_request runtime
              (new_lambda (variable (text "AWS_LAMBDA_RUNTIME_API")))
              extension_name
              body)
            (reply [] ∷ [])).0
          ≡ ok res)
        × (res.status_code ≡ 200)
        × (lookup header_extension_id (next_request runtime configured.events).headers
            ≡ some (get_header res.headers header_extension_id)))
configure-next_request_example =
    configure-next_request runtime variable (ok extension_config) (ok one) configured
      (reply [] ∷ []) configured_lem

-- Configured like that, the extension starts its proxy, and its first poll is answered with SHUTDOWN.
abbrev ConfiguredRun : Process → Type 0
ConfiguredRun =
    Reach memory_get sample_unmarshal runtime configured.events (new_extension configured.config)
      fresh

record Stopped : Type 0 where
  last : Process
  run : ConfiguredRun last

abbrev shut_down : Stopped
unfolding process_events next text text_eq start_proxy
shut_down = record {
  last = _;
  run =
      later
        (later
          (later
            (later (later here (parses started refl started_lem)) (opens (λ k. serving_ne k) refl))
            (select_ends got_ready refl refl))
          (events_end (false ∷ []) (reply shutdown ∷ []) none refl refl (λ k. never k)))
        (events_report_ends none refl refl);
}

-- So its process returns no error.
abbrev returns_none :
    RealMain runtime variable
      (ok extension_config)
      (ok one)
      (λ _. memory_get)
      sample_unmarshal
      (reply [] ∷ [])
      none
unfolding shut_down
returns_none = stops configured shut_down.last configured_lem shut_down.run refl

exit_code-RealMain_example :
    ToldToEnd runtime variable
      (ok extension_config)
      (ok one)
      (λ _. memory_get)
      sample_unmarshal
      (reply [] ∷ [])
      returns_none
unfolding exit_code
exit_code-RealMain_example =
    exit_code-RealMain runtime variable (ok extension_config) (ok one) (λ _. memory_get)
      sample_unmarshal (reply [] ∷ []) returns_none refl

-- Tracing is off unless the environment asks for it, in any case of its letters.
traced : (start_trace (λ _. text "True") one (new_trace one)).enabled ≡ true
unfolding start_trace terraform_aws_consul_lam.Trace.set_enabled
    terraform_aws_consul_lam.Extension.Main.trace_setting text_eq
    terraform_aws_consul_lam.Extension.Main.get_env_or_default text
    terraform_aws_consul_lam.Client.lower terraform_aws_consul_lam.Trace.set_logger new_trace
traced = refl

untraced : (start_trace (λ _. []) one (new_trace one)).enabled ≡ false
unfolding start_trace terraform_aws_consul_lam.Trace.set_enabled
    terraform_aws_consul_lam.Extension.Main.trace_setting text_eq
    terraform_aws_consul_lam.Extension.Main.get_env_or_default text
    terraform_aws_consul_lam.Client.lower terraform_aws_consul_lam.Trace.set_logger new_trace
untraced = refl
