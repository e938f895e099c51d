-- ===== src/Tests/Pass.antt =====
-- A full pass over one function and one service that is left of a function deleted before.
use terraform_aws_consul_lam.Prelude.{
  ◌≡◌, refl, arith, Text, text, text_eq, text_discrete, same, true, false, Option, none, List, [],
  ◌∷◌, inl,
}
use terraform_aws_consul_lam.Prelude.Dict.{Dict, lookup, insert, contains}
use terraform_aws_consul_lam.Errors.{ok}
use terraform_aws_consul_lam.Structs.{EnterpriseMeta, Service, no_service, em_eq}
use terraform_aws_consul_lam.Registrator.Event.{Event, upsert, delete, managed_lambda_tag}
use terraform_aws_consul_lam.Registrator.Trigger.{
  LambdaFunction, enabled_tag, synchronous, get_lambda_events, get_tag,
}
use terraform_aws_consul_lam.Registrator.Sync.{
  full_sync_data, get_lambdas, collect, get_enterprise_metas, get_consul_services, services_loop,
  managed_services, has_tag, plan, construct_upsert_events, construct_delete_events, meta_key,
}
use terraform_aws_consul_lam.Registrator.Sync.View.{settle}
use terraform_aws_consul_lam.Registrator.Handler.{process, handle_request, get_events}
use terraform_aws_consul_lam.Registrator.Handler.Setup.{setup_environment}
use terraform_aws_consul_lam.Registrator.Convergence.Request.{IsScheduled, handle_request_converges}
use terraform_aws_consul_lam.Registrator.Convergence.Read.{member}
use terraform_aws_consul_lam.Registrator.Convergence.Pass.{full_sync_converges, asked}
use terraform_aws_consul_lam.Registrator.Convergence.Local.{AllLocal}
use terraform_aws_consul_lam.Registrator.Convergence.Laws.{Instance, place}
use terraform_aws_consul_lam.Registrator.Convergence.Own.{registered, OwnsTag}
use terraform_aws_consul_lam.Tests.Memory.{
  Memory, memory, sample_config, Catalog, key, key_eq, listing, merge, named_only,
}
use terraform_aws_consul_lam.Tests.Consul.{memory-IsConsul, rows-OwnsTag}

abbrev pub oss : EnterpriseMeta
oss = record { namespace = []; partition = [] }

abbrev pub sample_function : LambdaFunction
sample_function = record {
  arn = text "arn:f";
  name = text "f";
  tags = (enabled_tag, text "true") ∷ [];
}

abbrev pub sample_functions : Dict Text LambdaFunction
sample_functions = (text "arn:f", sample_function) ∷ []

abbrev pub instance_of : Text → List Text → Instance
instance_of n tags = record { service = n; tags = tags }

-- The registrator's node has a service that is left over; another node has one of somebody else, whose
-- ID is not its name.
abbrev stale_catalog : Catalog
stale_catalog =
    (
      key (place oss) (text "lambdas") (text "old"),
      instance_of (text "old") (managed_lambda_tag ∷ []),
    )
    ∷ (key (place oss) (text "vm") (text "web-1"), instance_of (text "web") (text "v1" ∷ []))
    ∷ []

abbrev pub stale : Memory
stale = record { catalog = stale_catalog; functions = sample_functions; params = [] }

stale-OwnsTag : OwnsTag memory sample_config [] memory-IsConsul stale
unfolding has_tag text
stale-OwnsTag = rows-OwnsTag stale ((λ h. (refl, refl)), ((λ h. ground (arith, h)), tt))

abbrev service_named : Text → Option EnterpriseMeta → Service
service_named n em = record no_service { name = n; enterprise_meta = em }

abbrev pub sample_event : Event
sample_event = upsert (record {
  service = service_named (text "f") none;
  arguments = record {
    payload_passthrough = false;
    arn = text "arn:f";
    invocation_mode = synchronous;
  };
})

abbrev pub sample_events : List Event
sample_events = sample_event ∷ delete (record { service = service_named (text "old") none }) ∷ []

sample_planned : (full_sync_data memory sample_config stale).0 ≡ ok sample_events
unfolding full_sync_data get_lambdas collect get_lambda_events get_enterprise_metas
    get_consul_services services_loop managed_services has_tag plan construct_upsert_events
    construct_delete_events listing merge key_eq place lookup insert contains text_eq text_discrete
    same text terraform_aws_consul_lam.Registrator.Trigger.is_remote
    terraform_aws_consul_lam.Registrator.Trigger.invocation_mode
    terraform_aws_consul_lam.Registrator.Trigger.tags_meta
    terraform_aws_consul_lam.Structs.new_enterprise_meta get_tag
    terraform_aws_consul_lam.Registrator.Trigger.is_handled
    terraform_aws_consul_lam.Registrator.Trigger.events_for
    terraform_aws_consul_lam.Registrator.Trigger.flag_tag
    terraform_aws_consul_lam.Registrator.Trigger.aliases terraform_aws_consul_lam.Structs.em_eq
    meta_key terraform_aws_consul_lam.Registrator.Sync.meta_query
sample_planned = refl

pub sample_done :
    (process memory sample_config sample_events none
      (full_sync_data memory sample_config stale).1).0
    ≡ none
unfolding process full_sync_data terraform_aws_consul_lam.Registrator.Reconcile.reconcile
    terraform_aws_consul_lam.Registrator.Config.is_managing_tls text_eq text
    terraform_aws_consul_lam.Registrator.Reconcile.active_root
    terraform_aws_consul_lam.Tests.Memory.sample_marshal
    terraform_aws_consul_lam.Registrator.Reconcile.extension_data
    terraform_aws_consul_lam.Registrator.Event.registration
sample_done = refl

pub sample_scanned :
    (s : Memory)
    → (get_enterprise_metas memory sample_config (memory.list_functions s).1).0 ≡ ok (oss ∷ [])
unfolding get_enterprise_metas meta_key
sample_scanned s = refl

member-oss : member oss (oss ∷ []) ≡ true
unfolding member terraform_aws_consul_lam.Structs.em_eq
member-oss = refl

pub sample_AllLocal : AllLocal sample_config [] sample_functions
unfolding get_tag lookup text_eq text
sample_AllLocal = ((inl refl, λ h. cc), tt)

-- The service of a function that has gone is gone.
full_sync_converges_example :
    registered memory sample_config [] memory-IsConsul
      (process memory sample_config sample_events none
        (full_sync_data memory sample_config stale).1).1
      oss
      (text "old")
    ≡ asked sample_config sample_functions oss (text "old")
full_sync_converges_example =
    full_sync_converges memory sample_config [] memory-IsConsul sample_functions (oss ∷ []) stale
      sample_events refl (sample_scanned stale) sample_planned sample_done stale-OwnsTag tt
      sample_AllLocal oss (text "old") member-oss

sample_asked : asked sample_config sample_functions oss (text "old") ≡ false
unfolding get_lambda_events terraform_aws_consul_lam.Registrator.Sync.View.settle
    terraform_aws_consul_lam.Registrator.Trigger.is_remote text_eq
    terraform_aws_consul_lam.Registrator.Trigger.invocation_mode lookup text
    terraform_aws_consul_lam.Registrator.Trigger.tags_meta
    terraform_aws_consul_lam.Structs.new_enterprise_meta get_tag
    terraform_aws_consul_lam.Registrator.Trigger.is_handled
    terraform_aws_consul_lam.Registrator.Trigger.events_for
    terraform_aws_consul_lam.Registrator.Trigger.flag_tag
    terraform_aws_consul_lam.Registrator.Trigger.aliases terraform_aws_consul_lam.Structs.em_eq
    meta_key
sample_asked = refl

abbrev schedule : Dict Text Text
schedule = (text "source", text "aws.events") ∷ []

schedule-IsScheduled : IsScheduled memory schedule
unfolding lookup text_eq text
schedule-IsScheduled = (text "aws.events", refl, refl)

set_up : (setup_environment memory stale).0 ≡ ok sample_config
unfolding setup_environment text_eq terraform_aws_consul_lam.Registrator.Config.init_partitions
set_up = refl

handled : (handle_request memory schedule stale).0 ≡ ok []
unfolding handle_request setup_environment get_events full_sync_data get_lambdas collect
    get_lambda_events get_enterprise_metas get_consul_services services_loop managed_services
    has_tag plan construct_upsert_events construct_delete_events listing merge key_eq place lookup
    insert contains text_eq text_discrete same text
    terraform_aws_consul_lam.Registrator.Trigger.is_remote
    terraform_aws_consul_lam.Registrator.Trigger.invocation_mode
    terraform_aws_consul_lam.Registrator.Trigger.tags_meta
    terraform_aws_consul_lam.Structs.new_enterprise_meta get_tag
    terraform_aws_consul_lam.Registrator.Trigger.is_handled
    terraform_aws_consul_lam.Registrator.Trigger.events_for
    terraform_aws_consul_lam.Registrator.Trigger.flag_tag
    terraform_aws_consul_lam.Registrator.Trigger.aliases terraform_aws_consul_lam.Structs.em_eq
    meta_key process terraform_aws_consul_lam.Registrator.Reconcile.reconcile
    terraform_aws_consul_lam.Registrator.Config.is_managing_tls
    terraform_aws_consul_lam.Registrator.Reconcile.active_root
    terraform_aws_consul_lam.Tests.Memory.sample_marshal
    terraform_aws_consul_lam.Registrator.Reconcile.extension_data
    terraform_aws_consul_lam.Registrator.Config.init_partitions
    terraform_aws_consul_lam.Registrator.Sync.meta_query
    terraform_aws_consul_lam.Registrator.Event.registration
handled = refl

set_up_functions :
    (memory.list_functions (setup_environment memory stale).1).0 ≡ ok sample_functions
unfolding setup_environment text_eq terraform_aws_consul_lam.Registrator.Config.init_partitions
set_up_functions = refl

stale_set_up-OwnsTag :
    OwnsTag memory sample_config [] memory-IsConsul (setup_environment memory stale).1
unfolding setup_environment text_eq terraform_aws_consul_lam.Registrator.Config.init_partitions
stale_set_up-OwnsTag = stale-OwnsTag

-- The same pass, from the event on that the schedule sends
handle_request_converges_example :
    registered memory sample_config [] memory-IsConsul
      (handle_request memory schedule stale).1
      oss
      (text "old")
    ≡ asked sample_config sample_functions oss (text "old")
handle_request_converges_example =
    handle_request_converges memory sample_config [] memory-IsConsul schedule sample_functions
      (oss ∷ []) stale [] schedule-IsScheduled set_up set_up_functions
      (sample_scanned (setup_environment memory stale).1) handled stale_set_up-OwnsTag tt
      sample_AllLocal oss (text "old") member-oss
