-- ===== src/Registrator/Handler/Failures.antt =====
-- The error of an invocation: one entry for each event that failed, in the order of the events.
use terraform_aws_consul_lam.Prelude.{
  ◌≡◌, refl, sym, ◌∙◌, Option, none, some, List, [], ◌∷◌, ◌++◌, append_assoc, append-nil,
}
use terraform_aws_consul_lam.Errors.{Error, first, more, Result, ok, err, append_error}
use terraform_aws_consul_lam.Registrator.Config.{Config}
use terraform_aws_consul_lam.Registrator.Event.{Event}
use terraform_aws_consul_lam.Registrator.Platform.{Platform}
use terraform_aws_consul_lam.Registrator.Reconcile.{reconcile}
use terraform_aws_consul_lam.Registrator.Handler.{process, add_result}

-- The errors of a multierror
abbrev pub entries : Error → List Error
entries (first e) = e ∷ []
entries (more errs e) = entries errs ++ (e ∷ [])
entries e = e ∷ []

abbrev pub all_entries : Option Error → List Error
all_entries none = []
all_entries (some errs) = entries errs

abbrev pub error_of : Result (Unit {0}) → List Error
error_of (ok _) = []
error_of (err e) = e ∷ []

module _ (P : Platform) (env : Config) where
  -- The errors of the events, each one run on what those before it left
  abbrev pub failures : List Event → P.State → List Error
  failures [] s = []
  failures (e ∷ es) s = error_of (reconcile P env e s).0 ++ failures es (reconcile P env e s).1

  add_result_entries :
      (errs : Option Error) (r : Result (Unit {0}))
      → all_entries (add_result P errs r) ≡ all_entries errs ++ error_of r
  unfolding add_result append_error
  add_result_entries errs (ok _) = sym (append-nil (all_entries errs))
  add_result_entries none (err e) = refl
  add_result_entries (some errs) (err e) = refl

  -- The errors of a run are those that were there before and then those of the events that fail, in
  -- the order of the events; an event that fails keeps none behind it from being run.
  pub process-failures :
      (es : List Event) (errs : Option Error) (s : P.State)
      → all_entries (process P env es errs s).0 ≡ all_entries errs ++ failures es s
  unfolding process
  process-failures [] errs s = sym (append-nil (all_entries errs))
  process-failures (e ∷ es) errs s =
      process-failures es _ (reconcile P env e s).1
      ∙ rw (add_result_entries errs (reconcile P env e s).0) (append_assoc (all_entries errs) _ _)
