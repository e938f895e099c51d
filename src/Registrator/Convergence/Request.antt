-- ===== src/Registrator/Convergence/Request.antt =====
-- One scheduled invocation of the registrator, from `HandleRequest` to the catalog.
use terraform_aws_consul_lam.Prelude.{
  ◌≡◌, ◌≢◌, refl, sym, ap, ◌∙◌, arith, ◌==◌, Text, text, text_eq, true, Option, none, some, List,
  [], All,
}
use terraform_aws_consul_lam.Prelude.Dict.{Dict, lookup}
use terraform_aws_consul_lam.Errors.{
  Error, ok, map_error-eq-ok, setup_failed, getting_events_failed,
}
use terraform_aws_consul_lam.Exec.{wrap, bind-eq-ok}
use terraform_aws_consul_lam.Structs.{EnterpriseMeta}
use terraform_aws_consul_lam.Registrator.Config.{Config}
use terraform_aws_consul_lam.Registrator.Event.{Event}
use terraform_aws_consul_lam.Registrator.Platform.{Platform}
use terraform_aws_consul_lam.Registrator.Trigger.{LambdaFunction}
use terraform_aws_consul_lam.Registrator.Sync.{full_sync_data, get_enterprise_metas}
use terraform_aws_consul_lam.Registrator.Handler.{handle_request, get_events, process, finish}
use terraform_aws_consul_lam.Registrator.Handler.Setup.{setup_environment}
use terraform_aws_consul_lam.Registrator.Convergence.Laws.{IsConsul}
use terraform_aws_consul_lam.Registrator.Convergence.Own.{registered, OwnsTag}
use terraform_aws_consul_lam.Registrator.Convergence.Local.{AllLocal}
use terraform_aws_consul_lam.Registrator.Convergence.Read.{member}
use terraform_aws_consul_lam.Registrator.Convergence.Pass.{full_sync_converges, asked}

equal_lem : (t : Text) → (t == t) ≡ true
equal_lem t = ground arith

module _ (P : Platform) where
  -- The event's source is the schedule.
  abbrev pub IsScheduled : Dict Text P.Value → Type 0
  IsScheduled event =
      (v : P.Value) × (lookup (text "source") event ≡ some v)
      × (P.as_string v ≡ some (text "aws.events"))

  pub get_events-scheduled :
      (env : Config) (event : Dict Text P.Value) (s : P.State)
      → IsScheduled event
      → get_events P env event s ≡ full_sync_data P env s
  unfolding get_events
  get_events-scheduled env event s (v, there, named) =
      rw (there, get_events) (rw (named, get_events) (rw (equal_lem (text "aws.events")) refl))

  pub finish-eq-ok :
      (end : Option Error × P.State) (t : Text)
      → (finish P end).0 ≡ ok t
      → (end.0 ≡ none) × ((finish P end).1 ≡ end.1)
  unfolding finish
  finish-eq-ok (none, s) t h = (refl, refl)
  finish-eq-ok (some errs, s) t h = cc

  same_env : (a b : Config) → ok a ≡ ok b → a ≡ b
  same_env a b h = cc

  -- What a scheduled invocation without an error has done
  pub handle_request-eq-ok :
      (env : Config) (event : Dict Text P.Value) (s : P.State) (t : Text)
      → IsScheduled event
      → (setup_environment P s).0 ≡ ok env
      → (handle_request P event s).0 ≡ ok t
      → let s1 = (setup_environment P s).1 in
        (events : List Event) × ((full_sync_data P env s1).0 ≡ ok events)
        × ((process P env events none (full_sync_data P env s1).1).0 ≡ none)
        × ((handle_request P event s).1 ≡ (process P env events none (full_sync_data P env s1).1).1)
  unfolding handle_request
  handle_request-eq-ok env event s t scheduled set_up done =
      let s1 = (setup_environment P s).1 in
      let (env', a, q) = bind-eq-ok (wrap setup_failed (setup_environment P)) _ s done in
      let same : env' ≡ env = same_env env' env (sym (map_error-eq-ok setup_failed _ a) ∙ set_up) in
      let (events, b, q') =
        bind-eq-ok (wrap getting_events_failed (get_events P env event)) _ s1
          (rw (q, same) at done) in
      let g = get_events-scheduled env event s1 scheduled in
      let (fine, last) =
        finish-eq-ok (process P env events none (get_events P env event s1).1) t
          (rw (q, same, q') at done) in
      (
        events,
        ap (λ x. x.0) (sym g) ∙ map_error-eq-ok getting_events_failed _ b,
        rw (← g) fine,
        rw (q, same, q') (last ∙ ap (λ x. (process P env events none x.1).1) g),
      )

-- Let a scheduled invocation return no error, Consul behave as `IsConsul` says, nobody but the
-- registrator use its tag (`OwnsTag`), every managed partition have a name, and every function have a
-- name and be in the local datacenter. In every partition and namespace that is scanned Consul then
-- holds a service on the registrator's node, under its own name and with the tag, exactly if the
-- last event of the functions for it is an upsert.
pub handle_request_converges :
    (P : Platform) (env : Config) (local : Text) (L : IsConsul P local) (event : Dict Text P.Value)
    (fns : Dict Text LambdaFunction) (metas : List EnterpriseMeta) (s : P.State) (t : Text)
    → IsScheduled P event
    → (setup_environment P s).0 ≡ ok env
    → (P.list_functions (setup_environment P s).1).0 ≡ ok fns
    → (get_enterprise_metas P env (P.list_functions (setup_environment P s).1).1).0 ≡ ok metas
    → (handle_request P event s).0 ≡ ok t
    → OwnsTag P env local L (setup_environment P s).1
    → All (λ (p, _). p ≢ []) env.partitions
    → AllLocal env local fns
    → (em : EnterpriseMeta) (name : Text) → member em metas ≡ true
    → registered P env local L (handle_request P event s).1 em name ≡ asked env fns em name
handle_request_converges P env local L event fns metas s t scheduled set_up listed scanned done own
      named near em name m =
    let (events, planned, fine, last) =
      handle_request-eq-ok P env event s t scheduled set_up done in
    ap (λ x. registered P env local L x em name) last
    ∙ full_sync_converges P env local L fns metas (setup_environment P s).1 events listed scanned
        planned fine own named near em name m
