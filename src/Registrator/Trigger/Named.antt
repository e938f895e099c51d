-- ===== src/Registrator/Trigger/Named.antt =====
-- The events of a function that has a name have names.
use terraform_aws_consul_lam.Prelude.{
  ◌≢◌, refl, Text, Option, List, [], ◌∷◌, ◌++◌, All, Bool-cases, inl, inr,
}
use mathlib.Core.List.{map}
use terraform_aws_consul_lam.Structs.{EnterpriseMeta}
use terraform_aws_consul_lam.Registrator.Config.{Config}
use terraform_aws_consul_lam.Registrator.Event.{
  Event, upsert, delete, UpsertEvent, DeleteEvent, upsert_alias, delete_alias, service_of,
}
use terraform_aws_consul_lam.Registrator.Trigger.{
  LambdaFunction, get_lambda_events, events_for, lambda_service, flag_tag, enabled_tag, aliases,
  is_remote, tagged_events, invocation_mode, tags_meta, is_handled,
}
use terraform_aws_consul_lam.Registrator.Trigger.Scope.{OkAll, OkAll-bind}

append-ne-nil : (s t : Text) → s ≢ [] → s ++ t ≢ []
append-ne-nil [] t h = λ e. h refl
append-ne-nil (c ∷ s) t h = λ e. cc

module _ (env : Config) where
  abbrev pub IsNamedEvent : Event → Type 0
  IsNamedEvent e = (service_of e).name ≢ []

  upserts_named :
      (base : UpsertEvent) (names : List Text)
      → base.service.name ≢ []
      → All IsNamedEvent (map (λ alias. upsert (upsert_alias base alias)) names)
  unfolding upsert_alias
  upserts_named base [] h = tt
  upserts_named base (name ∷ names) h =
      (append-ne-nil base.service.name _ h, upserts_named base names h)

  deletes_named :
      (base : DeleteEvent) (names : List Text)
      → base.service.name ≢ []
      → All IsNamedEvent (map (λ alias. delete (delete_alias base alias)) names)
  unfolding delete_alias
  deletes_named base [] h = tt
  deletes_named base (name ∷ names) h =
      (append-ne-nil base.service.name _ h, deletes_named base names h)

  events_for_named :
      (fn : LambdaFunction) (mode : Text) (em : Option EnterpriseMeta)
      → fn.name ≢ []
      → All IsNamedEvent (events_for fn mode em)
  unfolding events_for lambda_service
  events_for_named fn mode em h = elim (Bool-cases (flag_tag fn.tags enabled_tag)) [
    | inl on ↦ rw on (h, upserts_named _ (aliases fn.tags) h)
    | inr off ↦ rw off (h, deletes_named _ (aliases fn.tags) h)
  ]

  pub get_lambda_events_named :
      (fn : LambdaFunction) → fn.name ≢ [] → OkAll IsNamedEvent (get_lambda_events env fn)
  unfolding get_lambda_events tagged_events
  get_lambda_events_named fn h = elim (Bool-cases (is_remote env fn.tags)) [
    | inl far ↦ rw far tt
    | inr near ↦ rw near (
        OkAll-bind _ (invocation_mode fn.tags) _ λ mode _.
          OkAll-bind _ (tags_meta env fn.tags) _ λ em tagged.
            elim (Bool-cases (is_handled env em)) [
              | inl handled ↦ rw handled (events_for_named fn mode em h)
              | inr ignored ↦ rw ignored tt
            ])
  ]
