-- ===== src/Extension/Main/Exit.antt =====
-- When the process of the extension exits with code 0.
use terraform_aws_consul_lam.Prelude.{◌≡◌, refl, ap, ◌∙◌, ◌⊎◌, Text, true, Option, none, some}
use terraform_aws_consul_lam.Errors.{Error, Result}
use terraform_aws_consul_lam.Exec.{Exec}
use terraform_aws_consul_lam.Structs.{ExtensionData}
use terraform_aws_consul_lam.Extension.{Config, new_extension}
use terraform_aws_consul_lam.Extension.LambdaClient.{HttpApi}
use terraform_aws_consul_lam.Extension.Start.{returned}
use terraform_aws_consul_lam.Extension.Start.Polls.{loop_of, SawShutdown}
use terraform_aws_consul_lam.Extension.Start.Success.{start_ok}
use terraform_aws_consul_lam.Extension.Main.{exit_code, RealMain, misconfigured, stops}

module _ {Sdk : Type 0} (api : HttpApi) (getenv : Text → Text) (process_env : Result Config)
    (load_default_config : Result Sdk) {S : Type 0} (ssm : Sdk → Text → Exec S Text)
    (unmarshal : Text → Result ExtensionData) (s : api.State) where
  -- In this run the extension was configured and told to end: its process was interrupted, or its
  -- event loop, which polls with the identifier of its registration, got a SHUTDOWN.
  abbrev pub ToldToEnd :
      {r : Option Error}
      → RealMain api getenv process_env load_default_config ssm unmarshal s r
      → Type 0
  ToldToEnd (misconfigured e h) = ⊥
  ToldToEnd (stops c p configured run h) =
      (p.interrupted ≡ true)
      ⊎ SawShutdown api c.events
          (loop_of (ssm c.store) unmarshal api c.events (new_extension c.config) run)

  RealMain-none :
      {r : Option Error} (m : RealMain api getenv process_env load_default_config ssm unmarshal s r)
      → r ≡ none
      → ToldToEnd m
  RealMain-none (misconfigured e h) same = cc
  RealMain-none (stops c p configured run h) same =
      start_ok (ssm c.store) unmarshal api c.events (new_extension c.config) run
        (h ∙ ap returned same)

  no_error : (r : Option Error) → exit_code r ≡ 0 → r ≡ none
  unfolding exit_code
  no_error none h = refl
  no_error (some e) h = cc

  -- Whatever the goroutines of `Start` do, in any order, the process exits with code 0 only if
  -- `configure` has succeeded, and then, in the run of `Start` that followed, a signal has interrupted
  -- it or one of the polls of its event loop, for the client that `configure` has registered, was
  -- answered with SHUTDOWN.
  pub exit_code-RealMain :
      {r : Option Error} (m : RealMain api getenv process_env load_default_config ssm unmarshal s r)
      → exit_code r ≡ 0
      → ToldToEnd m
  exit_code-RealMain {r} m h = RealMain-none m (no_error r h)
