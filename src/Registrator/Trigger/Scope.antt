-- ===== src/Registrator/Trigger/Scope.antt =====
-- Every event of a function lies within what the registrator manages.
use terraform_aws_consul_lam.Prelude.{
  ◌≡◌, ◌≢◌, ◌⊎◌, inl, inr, refl, subst, Text, text, text_eq, true, false, Option, none, some, List,
  [], ◌∷◌, All, arith, Bool-cases,
}
use terraform_aws_consul_lam.Prelude.Dict.{contains}
use mathlib.Core.List.{map}
use terraform_aws_consul_lam.Errors.{Result, ok, err, ◌>>=◌}
use terraform_aws_consul_lam.Structs.{EnterpriseMeta, new_enterprise_meta, Service, default}
use terraform_aws_consul_lam.Registrator.Config.{Config}
use terraform_aws_consul_lam.Registrator.Event.{
  Event, upsert, delete, UpsertEvent, DeleteEvent, service_of, upsert_alias, delete_alias,
}
use terraform_aws_consul_lam.Registrator.Trigger.{
  LambdaFunction, get_tag, datacenter_tag, tags_meta, is_handled, events_for, is_remote,
  get_lambda_events, lambda_service, aliases, invocation_mode, tagged_events, Tags, flag_tag,
  enabled_tag,
}

-- Both names of the metadata are there.
abbrev pub IsNamed : EnterpriseMeta → Type 0
IsNamed em = (em.namespace ≢ []) × (em.partition ≢ [])

-- Without Enterprise there is no metadata; with it, it is whole, and its partition is managed.
abbrev pub MetaInScope : Config → Option EnterpriseMeta → Type 0
MetaInScope env none = env.is_enterprise ≡ false
MetaInScope env (some em) =
    (env.is_enterprise ≡ true) × IsNamed em × (contains em.partition env.partitions ≡ true)

pub record InScope (env : Config) (tags : Tags) (s : Service) : Type 0 where
  pub origin : s.datacenter ≡ get_tag tags datacenter_tag
  pub datacenter : (env.datacenter ≡ []) ⊎ (s.datacenter ≡ env.datacenter)
  pub enterprise_meta : MetaInScope env s.enterprise_meta

default-ne-nil : default ≢ []
unfolding text
default-ne-nil = λ h. cc

tags_meta-MetaInScope :
    (env : Config) (tags : Tags) (em : Option EnterpriseMeta)
    → tags_meta env tags ≡ ok em
    → is_handled env em ≡ true
    → MetaInScope env em
unfolding tags_meta is_handled new_enterprise_meta
tags_meta-MetaInScope env tags none h k = ground (arith, default-ne-nil)
tags_meta-MetaInScope env tags (some em) h k = ground (arith, default-ne-nil)

-- Every item of the list, if there is one
abbrev pub OkAll {ℓ κ} : {B : Type ℓ} → (B → Type κ) → Result (List B) → Type κ
OkAll P (ok bs) = All P bs
OkAll P (err _) = Unit

pub OkAll-bind {ℓ κ ι} :
    {A : Type ι} {B : Type ℓ} (P : B → Type κ) (m : Result A) (f : A → Result (List B))
    → ((a : A) → m ≡ ok a → OkAll P (f a))
    → OkAll P (m >>= f)
OkAll-bind P (ok a) f h = h a refl
OkAll-bind P (err e) f h = tt

module _ (env : Config) (tags : Tags) where
  abbrev pub EventInScope : Event → Type 0
  EventInScope e = InScope env tags (service_of e)

  upsert_aliases-InScope :
      (base : UpsertEvent) (names : List Text)
      → InScope env tags base.service
      → All EventInScope (map (λ alias. upsert (upsert_alias base alias)) names)
  unfolding upsert_alias
  upsert_aliases-InScope base [] h = tt
  upsert_aliases-InScope base (name ∷ names) h = (
    record { origin = h.origin; datacenter = h.datacenter; enterprise_meta = h.enterprise_meta },
    upsert_aliases-InScope base names h,
  )

  delete_aliases-InScope :
      (base : DeleteEvent) (names : List Text)
      → InScope env tags base.service
      → All EventInScope (map (λ alias. delete (delete_alias base alias)) names)
  unfolding delete_alias
  delete_aliases-InScope base [] h = tt
  delete_aliases-InScope base (name ∷ names) h = (
    record { origin = h.origin; datacenter = h.datacenter; enterprise_meta = h.enterprise_meta },
    delete_aliases-InScope base names h,
  )

module _ (env : Config) where
  events_for-InScope :
      (fn : LambdaFunction) (mode : Text) (em : Option EnterpriseMeta)
      → InScope env fn.tags (lambda_service fn em)
      → All (EventInScope env fn.tags) (events_for fn mode em)
  unfolding events_for
  events_for-InScope fn mode em h = elim (Bool-cases (flag_tag fn.tags enabled_tag)) [
    | inl on ↦ rw on (h, upsert_aliases-InScope env fn.tags _ (aliases fn.tags) h)
    | inr off ↦ rw off (h, delete_aliases-InScope env fn.tags _ (aliases fn.tags) h)
  ]

  lambda_service-InScope :
      (fn : LambdaFunction) (em : Option EnterpriseMeta)
      → is_remote env fn.tags ≡ false
      → MetaInScope env em
      → InScope env fn.tags (lambda_service fn em)
  unfolding is_remote lambda_service
  lambda_service-InScope fn em near h = record {
    origin = refl;
    datacenter = ground arith;
    enterprise_meta = h;
  }

  tagged_events-InScope :
      (fn : LambdaFunction)
      → is_remote env fn.tags ≡ false
      → OkAll (EventInScope env fn.tags) (tagged_events env fn)
  unfolding tagged_events
  tagged_events-InScope fn near = OkAll-bind _ (invocation_mode fn.tags) _ λ mode _.
      OkAll-bind _ (tags_meta env fn.tags) _ λ em tagged. elim (Bool-cases (is_handled env em)) [
        | inl handled ↦ rw handled (
            events_for-InScope fn mode em (
              lambda_service-InScope fn em near
                (tags_meta-MetaInScope env fn.tags em tagged handled)))
        | inr ignored ↦ rw ignored tt
      ]

  pub get_lambda_events-OkAll :
      (fn : LambdaFunction) → OkAll (EventInScope env fn.tags) (get_lambda_events env fn)
  unfolding get_lambda_events
  get_lambda_events-OkAll fn = elim (Bool-cases (is_remote env fn.tags)) [
    | inl far ↦ rw far tt
    | inr near ↦ rw near (tagged_events-InScope fn near)
  ]

  -- Whatever the tags of a function are, if it has events then each lies in the datacenter of
  -- its tag, which is the registrator's, if the registrator has one; without Enterprise it has
  -- no metadata, and with it a namespace and a partition that the registrator manages.
  pub get_lambda_events-InScope :
      (fn : LambdaFunction) (events : List Event)
      → get_lambda_events env fn ≡ ok events
      → All (EventInScope env fn.tags) events
  get_lambda_events-InScope fn events h =
      subst (OkAll (EventInScope env fn.tags)) h (get_lambda_events-OkAll fn)
