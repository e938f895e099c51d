-- ===== src/Registrator/Sync/View.antt =====
-- How a plan and the maps that it is made of are read: which services are there, which are wanted,
-- and what a list of events makes of one service.
use terraform_aws_consul_lam.Prelude.{
  ◌≡◌, refl, Text, ◌==◌, text_eq, Bool, true, false, ◌&&◌, Option, none, some, List, [], ◌∷◌, All,
  if◌then◌else◌,
}
use terraform_aws_consul_lam.Prelude.Dict.{Dict, lookup, contains, NodupKeys}
use terraform_aws_consul_lam.Structs.{EnterpriseMeta, em_eq, new_enterprise_meta}
use terraform_aws_consul_lam.Registrator.Event.{Event, upsert, delete, service_of}
use terraform_aws_consul_lam.Registrator.Sync.{EventMap, ServiceMap, meta_key}

abbrev pub is_upsert : Event → Bool
is_upsert (upsert _) = true
is_upsert (delete _) = false

abbrev pub event_meta : Event → EnterpriseMeta
event_meta e = meta_key (service_of e).enterprise_meta

abbrev pub event_name : Event → Text
event_name e = (service_of e).name

-- Whether a service is registered once the events have been carried out, from whether it was.
unfoldable pub after : EnterpriseMeta → Text → Bool → List Event → Bool
after em name old [] = old
after em name old (e ∷ es) =
    after em name (if em == event_meta e && name == event_name e then is_upsert e else old) es

module _ {ℓ} {V : Type ℓ} where
  unfoldable pub has : EnterpriseMeta → Text → Dict EnterpriseMeta (Dict Text V) → Bool
  has em name m = elim (lookup em m) [ none ↦ false | some d ↦ contains name d ]

-- Whether the functions ask for the service, do not, or say nothing of it
unfoldable pub settle : Option Event → Bool → Bool
settle none old = old
settle (some e) old = is_upsert e

unfoldable pub find : EnterpriseMeta → Text → EventMap → Option Event
find em name m = elim (lookup em m) [ none ↦ none | some d ↦ lookup name d ]

-- Every event stands under its own metadata and name, and no key stands twice.
abbrev pub Keyed : EnterpriseMeta → Dict Text Event → Type 0
Keyed em [] = Unit
Keyed em ((name, e) ∷ d) =
    (event_meta e ≡ em) × (event_name e ≡ name) × (lookup name d ≡ none) × Keyed em d

abbrev pub IsKeyed : EventMap → Type 0
IsKeyed [] = Unit
IsKeyed ((em, d) ∷ m) = Keyed em d × (lookup em m ≡ none) × IsKeyed m

-- The metadata of a scan: the zero struct, or a partition with a namespace.
abbrev pub IsScanned : EnterpriseMeta → Type 0
IsScanned em = meta_key (new_enterprise_meta em.partition em.namespace) ≡ em

-- Whether the functions ask for a service to be registered
unfoldable pub wanted : EnterpriseMeta → Text → EventMap → Bool
unfolding find settle
wanted em name lambdas = settle (find em name lambdas) false

pub record IsPlannable (lambdas : EventMap) (services : ServiceMap) : Type 0 where
  pub keyed : IsKeyed lambdas
  pub scanned : All (λ (em, _). IsScanned em) services
  pub nodup : NodupKeys services

pub find-nil : (em : EnterpriseMeta) (name : Text) → find em name [] ≡ none
unfolding find lookup
find-nil em name = refl
