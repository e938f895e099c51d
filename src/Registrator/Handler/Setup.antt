-- ===== src/Registrator/Handler/Setup.antt =====
-- `SetupEnvironment` of environment.go.
use terraform_aws_consul_lam.Prelude.{Text, text, ◌==◌, text_eq, [], if◌then◌else◌}
use terraform_aws_consul_lam.Exec.{Exec, pure, ◌>>=◌, ◌>>◌}
use terraform_aws_consul_lam.Registrator.Config.{Config, init_partitions}
use terraform_aws_consul_lam.Registrator.Platform.{Platform}

abbrev pub ca_cert_path : Text
ca_cert_path = text "/tmp/consul-ca-cert.pem"

module _ (P : Platform) where
  open P use {
    State, store_get, process_environment, load_sdk_config, set_env, write_file, new_client,
  }

  -- `setConsulHTTPToken`
  unfoldable pub set_consul_http_token : Text → Exec State Unit
  set_consul_http_token path =
      if path == []
      then pure tt
      else (do token ← store_get path; set_env (text "CONSUL_HTTP_TOKEN") token)

  -- `setConsulCACert`
  unfoldable pub set_consul_ca_cert : Text → Exec State Unit
  set_consul_ca_cert path = if path == [] then pure tt else (do
    cert ← store_get path
    write_file ca_cert_path cert
    set_env (text "CONSUL_CACERT") ca_cert_path)

  -- `SetupEnvironment`; the clients that it makes are the platform's calls.
  unfoldable pub setup_environment : Exec State Config
  unfolding set_consul_http_token set_consul_ca_cert
  setup_environment = do
    raw ← process_environment
    let env = init_partitions raw
    load_sdk_config
    set_consul_http_token env.consul_http_token_path
    set_consul_ca_cert env.consul_ca_cert_path
    new_client
    pure env
