-- ===== src/Registrator/Convergence/Local.antt =====
-- Where every function is in the local datacenter, so is every event of a plan.
use terraform_aws_consul_lam.Prelude.{
  ◌≢◌, refl, sym, subst, Text, Option, none, some, List, [], ◌∷◌, All, inl,
}
use terraform_aws_consul_lam.Prelude.Dict.{Dict}
use terraform_aws_consul_lam.Errors.{Result, ok, err}
use terraform_aws_consul_lam.Structs.{EnterpriseMeta}
use terraform_aws_consul_lam.Registrator.Config.{Config}
use terraform_aws_consul_lam.Registrator.Event.{Event, service_of}
use terraform_aws_consul_lam.Registrator.Trigger.{
  LambdaFunction, get_lambda_events, get_tag, datacenter_tag,
}
use terraform_aws_consul_lam.Registrator.Trigger.Scope.{
  EventInScope, OkAll, get_lambda_events-OkAll, MetaInScope,
}
use terraform_aws_consul_lam.Registrator.Trigger.Named.{IsNamedEvent, get_lambda_events_named}
use terraform_aws_consul_lam.Registrator.Sync.{ServiceMap, meta_key, orphan}
use terraform_aws_consul_lam.Registrator.Sync.View.{event_name}
use terraform_aws_consul_lam.Registrator.Convergence.Laws.{IsLocal}
use terraform_aws_consul_lam.Registrator.Convergence.Own.{Scans, Scans-IsScanned}
use terraform_aws_consul_lam.Registrator.Convergence.Carry.{IsLocalEvent}
use terraform_aws_consul_lam.Registrator.Convergence.Read.{zero-Scans}

MetaInScope-Scans :
    (env : Config) (em : Option EnterpriseMeta) → MetaInScope env em → Scans env (meta_key em)
unfolding meta_key
MetaInScope-Scans env none oss = zero-Scans env oss
MetaInScope-Scans env (some em) (ent, named, _) = rw ent named

module _ (env : Config) (local : Text) where
  -- Every function has a name, and is in the local datacenter, by its tag or by default.
  abbrev pub AllLocal : Dict Text LambdaFunction → Type 0
  AllLocal = All (λ (_, fn). IsLocal local (get_tag fn.tags datacenter_tag) × (fn.name ≢ []))

  InScope-IsLocalEvent :
      (fn : LambdaFunction) (e : Event)
      → IsLocal local (get_tag fn.tags datacenter_tag)
      → EventInScope env fn.tags e
      → event_name e ≢ []
      → IsLocalEvent env local e
  InScope-IsLocalEvent fn e near h named = record {
    datacenter = rw h.origin near;
    scanned = MetaInScope-Scans env (service_of e).enterprise_meta h.enterprise_meta;
    named = named;
  }

  OkAll-map :
      (fn : LambdaFunction) (r : Result (List Event))
      → IsLocal local (get_tag fn.tags datacenter_tag)
      → OkAll (EventInScope env fn.tags) r
      → OkAll (IsNamedEvent env) r
      → OkAll (IsLocalEvent env local) r
  OkAll-map fn (ok []) near _ _ = tt
  OkAll-map fn (ok (e ∷ es)) near (h, hs) (k, ks) =
      (InScope-IsLocalEvent fn e near h k, OkAll-map fn (ok es) near hs ks)
  OkAll-map fn (err x) near _ _ = tt

  pub all_local :
      (fns : Dict Text LambdaFunction)
      → AllLocal fns
      → All (λ (_, fn). OkAll (IsLocalEvent env local) (get_lambda_events env fn)) fns
  all_local [] _ = tt
  all_local ((_, fn) ∷ fns) ((near, named), hs) = (
    OkAll-map fn (get_lambda_events env fn) near (get_lambda_events-OkAll env fn)
        (get_lambda_events_named env fn named),
    all_local fns hs,
  )

  orphan-IsLocalEvent :
      (em : EnterpriseMeta) (name : Text)
      → Scans env em
      → name ≢ []
      → IsLocalEvent env local (orphan em name)
  unfolding orphan
  orphan-IsLocalEvent em name h named = record {
    datacenter = inl refl;
    scanned = subst (Scans env) (sym (Scans-IsScanned env em h)) h;
    named = named;
  }

  orphans_of :
      (em : EnterpriseMeta) (d : Dict Text (Unit {0}))
      → Scans env em
      → All (λ (name, _). name ≢ []) d
      → All (λ (name, _). IsLocalEvent env local (orphan em name)) d
  orphans_of em [] h _ = tt
  orphans_of em ((name, _) ∷ d) h (named, ns) =
      (orphan-IsLocalEvent em name h named, orphans_of em d h ns)

  pub orphans_local :
      (services : ServiceMap)
      → All (λ (em, _). Scans env em) services
      → All (λ (_, d). All (λ (name, _). name ≢ []) d) services
      → All (λ (em, d). All (λ (name, _). IsLocalEvent env local (orphan em name)) d) services
  orphans_local [] _ _ = tt
  orphans_local ((em, d) ∷ services) (h, hs) (k, ks) =
      (orphans_of em d h k, orphans_local services hs ks)
