-- ===== src/Tests/Settled.antt =====
-- A full pass over a catalog that is in step with the functions.
use terraform_aws_consul_lam.Prelude.{
  ◌==◌, ◌≢◌, subst, Bool-cases, inr, ◌∙◌, sym, ◌≡◌, refl, arith, Text, text, text_eq, text_discrete,
  same, true, false, some, List, [], ◌∷◌, inl, if◌then◌else◌,
}
use terraform_aws_consul_lam.Prelude.Dict.{lookup, insert, contains}
use terraform_aws_consul_lam.Errors.{ok, err}
use terraform_aws_consul_lam.Structs.{EnterpriseMeta, Service, no_service, em_eq}
use terraform_aws_consul_lam.Registrator.Event.{Event, managed_lambda_tag}
use terraform_aws_consul_lam.Registrator.Trigger.{
  LambdaFunction, enabled_tag, synchronous, get_lambda_events, get_tag,
}
use terraform_aws_consul_lam.Registrator.Sync.{
  full_sync_data, get_lambdas, collect, get_enterprise_metas, get_consul_services, services_loop,
  managed_services, has_tag, plan, construct_upsert_events, construct_delete_events, meta_key,
}
use terraform_aws_consul_lam.Registrator.Sync.View.{settle}
use terraform_aws_consul_lam.Registrator.Convergence.Read.{member}
use terraform_aws_consul_lam.Registrator.Convergence.Pass.{full_sync_stable, asked}
use terraform_aws_consul_lam.Registrator.Convergence.Laws.{place}
use terraform_aws_consul_lam.Registrator.Convergence.Own.{registered, OwnsTag, is_tagged}
use terraform_aws_consul_lam.Tests.Memory.{
  Memory, memory, sample_config, key, key_eq, listing, merge, named_only,
}
use terraform_aws_consul_lam.Tests.Consul.{memory-IsConsul, rows-OwnsTag, key-eq}
use terraform_aws_consul_lam.Tests.Pass.{
  oss, sample_function, sample_functions, instance_of, sample_event, sample_scanned,
  sample_AllLocal,
}

abbrev settled : Memory
settled = record {
  catalog =
      (
        key (place oss) (text "lambdas") (text "f"),
        instance_of (text "f") (managed_lambda_tag ∷ []),
      )
      ∷ [];
  functions = sample_functions;
  params = [];
}

abbrev settled_events : List Event
settled_events = elim (full_sync_data memory sample_config settled).0 [ ok es ↦ es | err _ ↦ [] ]

settled_planned : (full_sync_data memory sample_config settled).0 ≡ ok settled_events
unfolding full_sync_data get_lambdas collect get_lambda_events get_enterprise_metas
    get_consul_services services_loop managed_services has_tag plan construct_upsert_events
    construct_delete_events listing merge key_eq place lookup insert contains text_eq text_discrete
    same text terraform_aws_consul_lam.Registrator.Sync.meta_query
    terraform_aws_consul_lam.Registrator.Trigger.is_remote
    terraform_aws_consul_lam.Registrator.Trigger.invocation_mode
    terraform_aws_consul_lam.Registrator.Trigger.tags_meta
    terraform_aws_consul_lam.Structs.new_enterprise_meta get_tag
    terraform_aws_consul_lam.Registrator.Trigger.is_handled
    terraform_aws_consul_lam.Registrator.Trigger.events_for
    terraform_aws_consul_lam.Registrator.Trigger.flag_tag
    terraform_aws_consul_lam.Registrator.Trigger.aliases terraform_aws_consul_lam.Structs.em_eq
    meta_key
settled_planned = refl

sample_upsert : get_lambda_events sample_config sample_function ≡ ok (sample_event ∷ [])
unfolding get_lambda_events terraform_aws_consul_lam.Registrator.Trigger.is_remote text_eq
    terraform_aws_consul_lam.Registrator.Trigger.invocation_mode lookup text
    terraform_aws_consul_lam.Registrator.Trigger.tags_meta
    terraform_aws_consul_lam.Structs.new_enterprise_meta get_tag
    terraform_aws_consul_lam.Registrator.Trigger.is_handled
    terraform_aws_consul_lam.Registrator.Trigger.events_for
    terraform_aws_consul_lam.Registrator.Trigger.flag_tag
    terraform_aws_consul_lam.Registrator.Trigger.aliases
sample_upsert = refl

settled-OwnsTag : OwnsTag memory sample_config [] memory-IsConsul settled
settled-OwnsTag = rows-OwnsTag settled ((λ h. (refl, refl)), tt)

f-ne-nil : text "f" ≢ []
unfolding text
f-ne-nil = λ h. cc

text_same : (x : Text) → (x == x) ≡ true
text_same x = ground arith

place_same : (em : EnterpriseMeta) → (em == em) ≡ true
place_same em = ground arith

row_tagged :
    is_tagged (text "f") (named_only (some (instance_of (text "f") (managed_lambda_tag ∷ []))))
    ≡ true
unfolding text text_eq has_tag
row_tagged = refl

name_of :
    (name : Text)
    → (key (place oss) (text "lambdas") name == key (place oss) (text "lambdas") (text "f")) ≡ true
    → text "f" ≡ name
name_of name e = ground (arith, e)

settled_row :
    (name : Text)
    → registered memory sample_config [] memory-IsConsul settled oss name ≡ (
        if key (place oss) (text "lambdas") name == key (place oss) (text "lambdas") (text "f")
        then true
        else false)
unfolding lookup has_tag
settled_row name =
    elim (Bool-cases
      (key (place oss) (text "lambdas") name == key (place oss) (text "lambdas") (text "f"))) [
        | inl e ↦ rw e (
            subst
              (λ n.
                is_tagged n (named_only (some (instance_of (text "f") (managed_lambda_tag ∷ []))))
                ≡ true)
              (name_of name e) row_tagged)
        | inr e ↦ rw e refl
      ]

settled-registered :
    (name : Text)
    → registered memory sample_config [] memory-IsConsul settled oss name ≡ (name == text "f")
settled-registered name =
    settled_row name
    ∙ rw
        (
          key-eq (place oss) (place oss) (text "lambdas") (text "lambdas") name (text "f"),
          place_same (place oss),
          text_same (text "lambdas"),
        )
        (ground arith)

settled-asked-oss :
    (name : Text)
    → asked sample_config sample_functions oss name ≡ (
        if member oss (oss ∷ [])
        then registered memory sample_config [] memory-IsConsul settled oss name
        else false)
unfolding settle member meta_key
settled-asked-oss name = rw (settled-registered name, sample_upsert) (ground arith)

settled-asked :
    (em : EnterpriseMeta) (name : Text)
    → asked sample_config sample_functions em name ≡ (
        if member em (oss ∷ [])
        then registered memory sample_config [] memory-IsConsul settled em name
        else false)
unfolding settle member meta_key
settled-asked em name = elim (Bool-cases (em == oss)) [
  | inl e ↦
      let same : em ≡ oss = ground arith in
      subst
        (λ x. asked sample_config sample_functions x name ≡ (
          if member x (oss ∷ [])
          then registered memory sample_config [] memory-IsConsul settled x name
          else false))
        (sym same) (settled-asked-oss name)
  | inr e ↦ rw sample_upsert (ground (arith, e))
]

-- A pass over a catalog in step plans nothing.
full_sync_stable_example : settled_events ≡ []
full_sync_stable_example =
    full_sync_stable memory sample_config [] memory-IsConsul sample_functions (oss ∷ []) settled
      settled_events refl (sample_scanned settled) settled_planned settled-OwnsTag tt
      sample_AllLocal settled-asked
