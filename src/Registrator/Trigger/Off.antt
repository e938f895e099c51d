-- ===== src/Registrator/Trigger/Off.antt =====
-- What happens when a function is switched off: its enabled tag is removed or is no longer "true".
use terraform_aws_consul_lam.Prelude.{
  ◌≡◌, ◌≢◌, refl, sym, ◌∙◌, Text, text, text_eq, same, same_iff, true, false, Option, List, [], ◌∷◌,
  if◌then◌else◌, Bool-cases, inl, inr,
}
use terraform_aws_consul_lam.Prelude.Dict.{lookup}
use mathlib.Core.Bool.{false≢true}
use mathlib.Core.List.{map}
use terraform_aws_consul_lam.Errors.{Result, ok, err, Result-cases}
use terraform_aws_consul_lam.Structs.{EnterpriseMeta, Service}
use terraform_aws_consul_lam.Registrator.Config.{Config}
use terraform_aws_consul_lam.Registrator.Event.{
  Event, upsert, delete, service_of, UpsertEvent, DeleteEvent, upsert_alias, delete_alias,
}
use terraform_aws_consul_lam.Registrator.Trigger.{
  LambdaFunction, get_lambda_events, tagged_events, events_for, lambda_service, upsert_events,
  delete_events, get_tag, flag_tag, invocation_mode, tags_meta, is_handled, is_remote, aliases,
  enabled_tag, datacenter_tag, partition_tag, namespace_tag, aliases_tag, invocation_mode_tag,
}

-- The services of the events, in their order, or the error
abbrev pub targets : Result (List Event) → Result (List Service)
targets (ok es) = ok (map service_of es)
targets (err e) = err e

-- The second function is the first one, with other tags for enabling it and its payload.
pub record IsSwitched (on off : LambdaFunction) : Type 0 where
  pub name : off.name ≡ on.name
  pub enabled : flag_tag on.tags enabled_tag ≡ true
  pub disabled : flag_tag off.tags enabled_tag ≡ false
  pub tags : (key : Text) → key ≢ enabled_tag → lookup key off.tags ≡ lookup key on.tags

aliases_targets :
    (u : UpsertEvent) (d : DeleteEvent) (names : List Text)
    → d.service ≡ u.service
    → map service_of (map (λ a. delete (delete_alias d a)) names)
      ≡ map service_of (map (λ a. upsert (upsert_alias u a)) names)
unfolding upsert_alias delete_alias
aliases_targets u d [] h = refl
aliases_targets u d (a ∷ names) h = rw (h, aliases_targets u d names h) refl

same_targets :
    (u : UpsertEvent) (d : DeleteEvent) (names : List Text)
    → d.service ≡ u.service
    → map service_of (delete_events d names) ≡ map service_of (upsert_events u names)
unfolding upsert_events delete_events
same_targets u d names h = rw (h, aliases_targets u d names h) refl

differ : (s t : Text) → same s t ≡ false → s ≢ t
differ s t h e = false≢true (sym h ∙ (same_iff s t).1 e)

datacenter_tag-ne : datacenter_tag ≢ enabled_tag
unfolding text same
datacenter_tag-ne = differ datacenter_tag enabled_tag refl

partition_tag-ne : partition_tag ≢ enabled_tag
unfolding text same
partition_tag-ne = differ partition_tag enabled_tag refl

namespace_tag-ne : namespace_tag ≢ enabled_tag
unfolding text same
namespace_tag-ne = differ namespace_tag enabled_tag refl

aliases_tag-ne : aliases_tag ≢ enabled_tag
unfolding text same
aliases_tag-ne = differ aliases_tag enabled_tag refl

invocation_mode_tag-ne : invocation_mode_tag ≢ enabled_tag
unfolding text same
invocation_mode_tag-ne = differ invocation_mode_tag enabled_tag refl

module _ (env : Config) (on off : LambdaFunction) (h : IsSwitched on off) where
  same_tag : (key : Text) → key ≢ enabled_tag → get_tag off.tags key ≡ get_tag on.tags key
  unfolding get_tag
  same_tag key ne = rw (h.tags key ne) refl

  same_aliases : aliases off.tags ≡ aliases on.tags
  unfolding aliases
  same_aliases = rw (h.tags aliases_tag aliases_tag-ne) refl

  same_mode : invocation_mode off.tags ≡ invocation_mode on.tags
  unfolding invocation_mode
  same_mode = rw (h.tags invocation_mode_tag invocation_mode_tag-ne) refl

  same_meta : tags_meta env off.tags ≡ tags_meta env on.tags
  unfolding tags_meta
  same_meta =
      rw (same_tag partition_tag partition_tag-ne, same_tag namespace_tag namespace_tag-ne) refl

  same_remote : is_remote env off.tags ≡ is_remote env on.tags
  unfolding is_remote
  same_remote = rw (same_tag datacenter_tag datacenter_tag-ne) refl

  same_service : (em : Option EnterpriseMeta) → lambda_service off em ≡ lambda_service on em
  unfolding lambda_service
  same_service em = rw (same_tag datacenter_tag datacenter_tag-ne, h.name) refl

  targets-events_for :
      (mode : Text) (em : Option EnterpriseMeta)
      → map service_of (events_for off mode em) ≡ map service_of (events_for on mode em)
  unfolding events_for
  targets-events_for mode em =
      rw (h.enabled, h.disabled, same_aliases)
        (same_targets _ (record { service = lambda_service off em }) (aliases on.tags)
          (same_service em))

  handled_targets :
      (mode : Text) (em : Option EnterpriseMeta)
      → targets (if is_handled env em then ok (events_for off mode em) else ok [])
        ≡ targets (if is_handled env em then ok (events_for on mode em) else ok [])
  handled_targets mode em = elim (Bool-cases (is_handled env em)) [
    | inl fine ↦ rw fine (rw (targets-events_for mode em) refl)
    | inr foreign ↦ rw foreign refl
  ]

  targets-tagged_events : targets (tagged_events env off) ≡ targets (tagged_events env on)
  unfolding tagged_events
  targets-tagged_events =
      rw (same_mode, same_meta)
        (elim (Result-cases (invocation_mode on.tags)) [
          | inr (x, e) ↦ rw e refl
          | inl (mode, e) ↦ rw e (elim (Result-cases (tags_meta env on.tags)) [
            | inr (x, e') ↦ rw e' refl
            | inl (em, e') ↦ rw e' (handled_targets mode em)
          ])
        ])

  -- Let two functions have the same name and the same tags but for the enabled tag, which is on
  -- for one only. The function that is off asks for the deletion of exactly those services, in
  -- the same order, whose registration the other asks for; or both have the same error.
  pub get_lambda_events-off :
      targets (get_lambda_events env off) ≡ targets (get_lambda_events env on)
  unfolding get_lambda_events
  get_lambda_events-off = elim (Bool-cases (is_remote env on.tags)) [
    | inl far ↦ rw (same_remote, far) refl
    | inr near ↦ rw (same_remote, near) targets-tagged_events
  ]
