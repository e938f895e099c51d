-- ===== src/Registrator/Handler.antt =====
-- main.go, and `SetupEnvironment` of environment.go: one invocation of the registrator.
pub mod Setup
pub mod Failures
use terraform_aws_consul_lam.Prelude.{
  Text, text, ◌==◌, text_eq, Bool, not, Option, none, some, List, [], ◌∷◌, if◌then◌else◌,
}
use terraform_aws_consul_lam.Prelude.Dict.{Dict, lookup}
use terraform_aws_consul_lam.Errors.{
  Error, Result, ok, err, append_error, missing_event_source, unprocessable_event_source,
  decoding_failed, converting_failed, setup_failed, getting_events_failed,
}
use terraform_aws_consul_lam.Exec.{Exec, pure, raise, lift, wrap, ◌>>=◌}
use terraform_aws_consul_lam.Registrator.Config.{Config}
use terraform_aws_consul_lam.Registrator.Event.{Event}
use terraform_aws_consul_lam.Registrator.Platform.{Platform}
use terraform_aws_consul_lam.Registrator.Trigger.{AwsEvent}
use terraform_aws_consul_lam.Registrator.Sync.{aws_event_to_events, full_sync_data}
use terraform_aws_consul_lam.Registrator.Reconcile.{reconcile}
use terraform_aws_consul_lam.Registrator.Handler.Setup.{setup_environment}

module _ (P : Platform) where
  open P use {State, Value, as_string, decode}

  -- `data["source"].(string)`
  string_value : Option Value → Option Text
  string_value none = none
  string_value (some v) = as_string v

  unfoldable pub lambda_event : Config → AwsEvent → Exec State (List Event)
  lambda_event env event =
      if event.detail.error_code == []
      then wrap converting_failed (aws_event_to_events P env event)
      else pure []

  source_events : Config → Dict Text Value → Option Text → Exec State (List Event)
  unfolding lambda_event
  source_events env event none = raise missing_event_source
  source_events env event (some source) =
      if source == text "aws.events"
      then full_sync_data P env
      else if source == text "aws.lambda"
      then (do decoded ← wrap decoding_failed (lift (decode event)); lambda_event env decoded)
      else raise (unprocessable_event_source source)

  -- `GetEvents`
  unfoldable pub get_events : Config → Dict Text Value → Exec State (List Event)
  unfolding source_events string_value
  get_events env event = source_events env event (string_value (lookup (text "source") event))

  pub add_result : Option Error → Result (Unit {0}) → Option Error
  add_result errs (ok _) = errs
  add_result errs (err e) = append_error errs e

  -- The loop of `HandleRequest`: an event that fails does not stop those behind it.
  unfoldable pub process : Config → List Event → Option Error → State → Option Error × State
  unfolding add_result
  process env [] errs s = (errs, s)
  process env (e ∷ es) errs s =
      process env es (add_result errs (reconcile P env e s).0) (reconcile P env e s).1

  unfoldable pub finish : Option Error × State → Result Text × State
  finish (none, s) = (ok [], s)
  finish (some errs, s) = (err errs, s)

  -- `HandleRequest`
  unfoldable pub handle_request : Dict Text Value → Exec State Text
  unfolding finish
  handle_request event = do
    env ← wrap setup_failed (setup_environment P)
    events ← wrap getting_events_failed (get_events env event)
    λ s. finish (process env events none s)
