-- ===== src/Registrator/Sync/Inversion.antt =====
-- A full pass that succeeds has made each of its calls with success, one after the other.
use terraform_aws_consul_lam.Prelude.{◌≡◌, refl, sym, ap, ◌∙◌, Text, Option, none, some, List, []}
use terraform_aws_consul_lam.Prelude.Dict.{Dict}
use terraform_aws_consul_lam.Errors.{Error, ok}
use terraform_aws_consul_lam.Exec.{bind-eq-ok}
use terraform_aws_consul_lam.Structs.{EnterpriseMeta}
use terraform_aws_consul_lam.Registrator.Config.{Config}
use terraform_aws_consul_lam.Registrator.Event.{Event}
use terraform_aws_consul_lam.Registrator.Platform.{Platform}
use terraform_aws_consul_lam.Registrator.Trigger.{LambdaFunction}
use terraform_aws_consul_lam.Registrator.Sync.{
  EventMap, ServiceMap, collect, plan, checked, get_lambdas, get_enterprise_metas,
  get_consul_services, full_sync_data,
}

module _ (P : Platform) where
  checked-eq-ok :
      (acc : EventMap × Option Error) (s : P.State) (m : EventMap)
      → (checked P acc s).0 ≡ ok m
      → (m ≡ acc.0) × (acc.1 ≡ none) × ((checked P acc s).1 ≡ s)
  unfolding checked
  checked-eq-ok (lambdas, none) s m h = (cc, refl, refl)
  checked-eq-ok (lambdas, some errs) s m h = cc

  pub record FullSync (env : Config) (s : P.State) (events : List Event) : Type 0 where
    pub fns : Dict Text LambdaFunction
    pub metas : List EnterpriseMeta
    pub found : ServiceMap
    pub listed : (P.list_functions s).0 ≡ ok fns
    pub no_error : (collect env fns ([], none)).1 ≡ none
    pub scanned : (get_enterprise_metas P env (P.list_functions s).1).0 ≡ ok metas
    pub read :
        (get_consul_services P metas (get_enterprise_metas P env (P.list_functions s).1).1).0
        ≡ ok found
    pub planned : events ≡ plan (collect env fns ([], none)).0 found
    pub end_state :
        (full_sync_data P env s).1
        ≡ (get_consul_services P metas (get_enterprise_metas P env (P.list_functions s).1).1).1

  get_lambdas-eq-ok :
      (env : Config) (s : P.State) (m : EventMap)
      → (get_lambdas P env s).0 ≡ ok m
      → (fns : Dict Text LambdaFunction) × ((P.list_functions s).0 ≡ ok fns)
        × (m ≡ (collect env fns ([], none)).0)
        × ((collect env fns ([], none)).1 ≡ none)
        × ((get_lambdas P env s).1 ≡ (P.list_functions s).1)
  unfolding get_lambdas
  get_lambdas-eq-ok env s m h =
      let (fns, listed, q) = bind-eq-ok P.list_functions _ s h in
      let (a, b, c) =
        checked-eq-ok (collect env fns ([], none)) (P.list_functions s).1 m (rw q at h) in
      (fns, listed, a, b, ap (λ x. x.1) q ∙ c)

  planned_lem :
      (events : List Event) (lambdas m : EventMap) (found : ServiceMap)
      → ok events ≡ ok (plan lambdas found)
      → lambdas ≡ m
      → events ≡ plan m found
  planned_lem events lambdas m found h e = cc

  pub full_sync_data-eq-ok :
      (env : Config) (s : P.State) (events : List Event)
      → (full_sync_data P env s).0 ≡ ok events
      → FullSync env s events
  unfolding full_sync_data
  full_sync_data-eq-ok env s events h =
      let (lambdas, gathered, q) = bind-eq-ok (get_lambdas P env) _ s h in
      let (fns, listed, e, no_error, s1) = get_lambdas-eq-ok env s lambdas gathered in
      let (metas, scanned, q') =
        bind-eq-ok (get_enterprise_metas P env) _ (P.list_functions s).1 (rw (q, s1) at h) in
      let s2 = (get_enterprise_metas P env (P.list_functions s).1).1 in
      let (found, read, q'') =
        bind-eq-ok (get_consul_services P metas) _ s2 (rw (q, s1, q') at h) in
      let total : full_sync_data P env s
          ≡ (ok (plan lambdas found), (get_consul_services P metas s2).1) =
        rw (q, s1, q', q'') in
      record {
        fns = fns;
        metas = metas;
        found = found;
        listed = listed;
        no_error = no_error;
        scanned = scanned;
        read = read;
        planned = planned_lem events lambdas _ found (sym h ∙ ap (λ x. x.0) total) e;
        end_state = ap (λ x. x.1) total;
      }
