-- ===== src/Registrator/Sync.antt =====
-- trigger.go from `AWSEventToEvents` and `FullSyncData` on: what one Lambda event asks for, and what
-- a full pass over the Lambda functions and the Consul catalog asks for.
pub mod View
pub mod Plan
pub mod Settled
pub mod Collect
pub mod Inversion
pub mod Events
use terraform_aws_consul_lam.Prelude.{
  Text, ◌==◌, text_eq, Bool, true, false, not, ◌&&◌, Option, none, some, List, [], ◌∷◌, ◌++◌,
  if◌then◌else◌,
}
use terraform_aws_consul_lam.Prelude.Int.{pos}
use terraform_aws_consul_lam.Prelude.Dict.{Dict, lookup, insert, contains}
use mathlib.Core.List.{map}
use terraform_aws_consul_lam.Errors.{Error, Result, ok, err, append_error, is_not_enterprise}
use terraform_aws_consul_lam.Exec.{Exec, pure, raise, lift, ◌>>=◌}
use terraform_aws_consul_lam.Structs.{
  EnterpriseMeta, em_eq, Service, no_service, new_enterprise_meta,
}
use terraform_aws_consul_lam.Registrator.Config.{Config}
use terraform_aws_consul_lam.Registrator.Event.{
  Event, upsert, delete, DeleteEvent, service_of, managed_lambda_tag, RequestOptions,
}
use terraform_aws_consul_lam.Registrator.Platform.{Platform}
use terraform_aws_consul_lam.Registrator.Trigger.{
  LambdaFunction, AwsEvent, event_arn, get_lambda_events,
}

-- `eventMap` and `serviceMap`
abbrev pub EventMap : Type 0
EventMap = Dict EnterpriseMeta (Dict Text Event)

abbrev pub ServiceMap : Type 0
ServiceMap = Dict EnterpriseMeta (Dict Text (Unit {0}))

-- The zero struct stands for no metadata.
unfoldable pub meta_key : Option EnterpriseMeta → EnterpriseMeta
meta_key none = record { namespace = []; partition = [] }
meta_key (some em) = em

-- `lambdas[em]`, after it has been made if it is missing
or_new : Option (Dict Text Event) → Dict Text Event
or_new none = []
or_new (some d) = d

-- The body of the loop over the events of one function: both cases of the switch do the same.
pub add_event : EventMap → Event → EventMap
unfolding or_new
add_event lambdas event =
    let em = meta_key (service_of event).enterprise_meta in
    insert em (insert (service_of event).name event (or_new (lookup em lambdas))) lambdas

pub add_events : EventMap → List Event → EventMap
unfolding add_event
add_events lambdas [] = lambdas
add_events lambdas (event ∷ events) = add_events (add_event lambdas event) events

-- One function of the loop of `getLambdas`: the map so far, and the errors so far
collect_step : Result (List Event) → EventMap × Option Error → EventMap × Option Error
unfolding add_events
collect_step (ok events) (lambdas, errs) = (add_events lambdas events, errs)
collect_step (err e) (lambdas, errs) =
    (lambdas, if is_not_enterprise e then errs else append_error errs e)

unfoldable pub collect :
    Config → Dict Text LambdaFunction → EventMap × Option Error → EventMap × Option Error
unfolding collect_step
collect env [] acc = acc
collect env ((_, fn) ∷ fns) acc = collect env fns (collect_step (get_lambda_events env fn) acc)

unfoldable pub has_tag : List Text → Bool
has_tag [] = false
has_tag (t ∷ tags) = let rest = has_tag tags in if managed_lambda_tag == t then true else rest

-- The services of a catalog that carry the registrator's tag
unfoldable pub managed_services :
    Dict Text (List Text) → Dict Text (Unit {0}) → Dict Text (Unit {0})
unfolding has_tag
managed_services [] found = found
managed_services ((name, tags) ∷ services) found =
    managed_services services (if has_tag tags then insert name tt found else found)

-- The query for one partition and namespace; without both it is the default query.
unfoldable pub meta_query : EnterpriseMeta → Option RequestOptions
meta_query em =
    if not (em.partition == []) && not (em.namespace == [])
    then some (record { datacenter = []; partition = em.partition; namespace = em.namespace })
    else none

-- One entry of `constructUpsertEvents`
pub upsert_entry : ServiceMap → EnterpriseMeta → Text → Event → List Event
upsert_entry services em name (upsert e) = elim (lookup em services) [
  | some found ↦ if contains name found then [] else upsert e ∷ []
  | none ↦ upsert e ∷ []
]
upsert_entry services em name (delete e) = elim (lookup em services) [
  | some found ↦ if contains name found then delete e ∷ [] else []
  | none ↦ []
]

pub upsert_loop : ServiceMap → EnterpriseMeta → Dict Text Event → List Event
unfolding upsert_entry
upsert_loop services em [] = []
upsert_loop services em ((name, event) ∷ events) =
    upsert_entry services em name event ++ upsert_loop services em events

unfoldable pub construct_upsert_events : EventMap → ServiceMap → List Event
unfolding upsert_loop
construct_upsert_events [] services = []
construct_upsert_events ((em, events) ∷ lambdas) services =
    upsert_loop services em events ++ construct_upsert_events lambdas services

unfoldable pub orphan : EnterpriseMeta → Text → Event
orphan em name = delete (record {
  service = record no_service {
    name = name;
    enterprise_meta = new_enterprise_meta em.partition em.namespace;
  };
})

-- One entry of `constructDeleteEvents`
pub delete_entry : EventMap → EnterpriseMeta → Text → List Event
unfolding orphan
delete_entry lambdas em name = elim (lookup em lambdas) [
  | some events ↦ if contains name events then [] else orphan em name ∷ []
  | none ↦ orphan em name ∷ []
]

pub delete_loop : EventMap → EnterpriseMeta → Dict Text (Unit {0}) → List Event
unfolding delete_entry
delete_loop lambdas em [] = []
delete_loop lambdas em ((name, _) ∷ names) =
    delete_entry lambdas em name ++ delete_loop lambdas em names

unfoldable pub construct_delete_events : EventMap → ServiceMap → List Event
unfolding delete_loop
construct_delete_events lambdas [] = []
construct_delete_events lambdas ((em, names) ∷ services) =
    delete_loop lambdas em names ++ construct_delete_events lambdas services

-- The last lines of `FullSyncData`
unfoldable pub plan : EventMap → ServiceMap → List Event
plan lambdas services =
    construct_upsert_events lambdas services ++ construct_delete_events lambdas services

module _ (P : Platform) where
  open P use {State, services, namespaces, get_function, list_functions}

  -- `AWSEventToEvents`
  unfoldable pub aws_event_to_events : Config → AwsEvent → Exec State (List Event)
  aws_event_to_events env event = do
    arn ← lift (event_arn event)
    fn ← get_function arn
    lift (get_lambda_events env fn)

  checked : EventMap × Option Error → Exec State EventMap
  checked (lambdas, none) = pure lambdas
  checked (lambdas, some errs) = raise errs

  -- `getLambdas`; its only caller drops the map where there is an error.
  unfoldable pub get_lambdas : Config → Exec State EventMap
  unfolding checked
  get_lambdas env = do funcs ← list_functions; checked (collect env funcs ([], none))

  unfoldable pub metas_loop :
      Dict Text (Unit {0}) → List EnterpriseMeta → Exec State (List EnterpriseMeta)
  metas_loop [] metas = pure metas
  metas_loop ((partition, _) ∷ partitions) metas = do
    names ← namespaces partition
    metas_loop partitions
        (metas ++ map (λ n. record { namespace = n; partition = partition }) names)

  -- `getEnterpriseMetas`
  unfoldable pub get_enterprise_metas : Config → Exec State (List EnterpriseMeta)
  unfolding metas_loop
  get_enterprise_metas env =
      if env.is_enterprise then metas_loop env.partitions [] else pure (meta_key none ∷ [])

  unfoldable pub services_loop : List EnterpriseMeta → ServiceMap → Exec State ServiceMap
  services_loop [] found = pure found
  services_loop (em ∷ metas) found = do
    catalog ← services (meta_query em)
    services_loop metas (insert em (managed_services catalog []) found)

  -- `getConsulServices`
  unfoldable pub get_consul_services : List EnterpriseMeta → Exec State ServiceMap
  unfolding services_loop
  get_consul_services metas = services_loop metas []

  -- `FullSyncData`
  unfoldable pub full_sync_data : Config → Exec State (List Event)
  full_sync_data env = do
    lambdas ← get_lambdas env
    metas ← get_enterprise_metas env
    found ← get_consul_services metas
    pure (plan lambdas found)
