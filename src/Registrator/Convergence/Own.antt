-- ===== src/Registrator/Convergence/Own.antt =====
-- The registrator's own instances in the catalog, and what its requests make of them.
use terraform_aws_consul_lam.Prelude.{
  ◌≡◌, ◌≢◌, refl, sym, ap, ◌∙◌, subst, Text, ◌==◌, text_eq, Bool, true, false, ◌&&◌, ◌||◌, Option,
  none, some, List, [], ◌∷◌, if◌then◌else◌, arith, inl,
}
use terraform_aws_consul_lam.Prelude.Dict.{Dict, contains, lookup, insert, lookup-insert}
use terraform_aws_consul_lam.Errors.{ok}
use terraform_aws_consul_lam.Structs.{EnterpriseMeta, em_eq, new_enterprise_meta}
use terraform_aws_consul_lam.Registrator.Config.{Config}
use terraform_aws_consul_lam.Registrator.Event.{
  RequestOptions, CatalogRegistration, CatalogDeregistration,
}
use terraform_aws_consul_lam.Registrator.Platform.{Platform}
use terraform_aws_consul_lam.Registrator.Trigger.Scope.{IsNamed}
use terraform_aws_consul_lam.Registrator.Sync.{has_tag, managed_services, meta_key, meta_query}
use terraform_aws_consul_lam.Registrator.Sync.View.{IsScanned}
use terraform_aws_consul_lam.Registrator.Convergence.Laws.{
  IsLocal, options_meta, query_meta, query_datacenter, Instance, place, Tagged, lists_tag, IsConsul,
}

-- What the registrator scans: a named partition and namespace with Enterprise, no metadata without.
abbrev pub Scans : Config → EnterpriseMeta → Type 0
Scans env em = if env.is_enterprise then IsNamed em else (em ≡ meta_key none)

pub Scans-place :
    (env : Config) (a b : EnterpriseMeta)
    → Scans env a
    → Scans env b
    → (place a == place b) ≡ (a == b)
unfolding place meta_key
Scans-place env a b h k = ground (arith, h, k)

pub Scans-query :
    (env : Config) (em : EnterpriseMeta)
    → Scans env em
    → (query_meta (meta_query em) ≡ em) × (query_datacenter (meta_query em) ≡ [])
unfolding meta_query meta_key
Scans-query env em h = ground (arith, h)

pub Scans-IsScanned : (env : Config) (em : EnterpriseMeta) → Scans env em → IsScanned em
unfolding meta_key new_enterprise_meta
Scans-IsScanned env em h = ground (arith, h)

lists_lem :
    (name : Text) (d : Dict Text (List Text)) (found : Dict Text (Unit {0}))
    → contains name (managed_services d found) ≡ (lists_tag name d || contains name found)
unfolding managed_services lists_tag contains
lists_lem name [] found = refl
lists_lem name ((k, tags) ∷ d) found = ground (
  arith,
  lists_lem name d found,
  lists_lem name d (insert k tt found),
  lookup-insert name k tt found,
)

nothing :
    (name : Text) (b : Bool) → (b || contains name (let d : Dict Text (Unit {0}) = [] in d)) ≡ b
unfolding contains lookup
nothing name true = refl
nothing name false = refl

pub contains-lists_tag :
    (name : Text) (d : Dict Text (List Text))
    → contains name (managed_services d []) ≡ lists_tag name d
contains-lists_tag name d = lists_lem name d [] ∙ nothing name (lists_tag name d)

agree : (a b : Bool) → (a ≡ true → b ≡ true) → (b ≡ true → a ≡ true) → a ≡ b
agree true b f g = sym (f refl)
agree false true f g = g refl
agree false false f g = refl

abbrev pub is_tagged : Text → Option Instance → Bool
is_tagged name none = false
is_tagged name (some x) = x.service == name && has_tag x.tags

module _ (P : Platform) (env : Config) (local : Text) (L : IsConsul P local) where
  open L use {entries}

  -- Whether the catalog holds the service on the registrator's node, under its name and with the tag
  abbrev pub registered : P.State → EnterpriseMeta → Text → Bool
  registered s em name = is_tagged name (entries s (place em) env.node_name name)

  -- Nobody else uses the tag: who carries it is on the registrator's node, under its own name.
  abbrev pub OwnsTag : P.State → Type 0
  OwnsTag s =
      (em : EnterpriseMeta) (node id : Text) (x : Instance)
      → entries s em node id ≡ some x
      → has_tag x.tags ≡ true
      → (node ≡ env.node_name) × (id ≡ x.service)

  registered-Tagged :
      (s : P.State) (em : EnterpriseMeta) (name : Text) (o : Option Instance)
      → entries s (place em) env.node_name name ≡ o
      → is_tagged name o ≡ true
      → Tagged (entries s) (place em) name
  registered-Tagged s em name none e h = cc
  registered-Tagged s em name (some x) e h =
      (env.node_name, name, x, e, ground (arith, h), ground (arith, h))

  Tagged-registered :
      (s : P.State) (em : EnterpriseMeta) (name : Text)
      → OwnsTag s
      → Tagged (entries s) (place em) name
      → registered s em name ≡ true
  Tagged-registered s em name own (node, id, x, e, named, tagged) =
      let (same_node, same_id) = own (place em) node id x e tagged in
      let e' : entries s (place em) env.node_name name ≡ some x =
        ap (λ n. entries s (place em) n name) (sym same_node)
        ∙ ap (entries s (place em) node) (sym (same_id ∙ named))
        ∙ e in
      ap (is_tagged name) e' ∙ ground (arith, named, tagged)

  -- What is read of a scanned place is what the registrator has there.
  pub services-registered :
      (em : EnterpriseMeta) (name : Text) (s : P.State) (catalog : Dict Text (List Text))
      → Scans env em
      → OwnsTag s
      → (P.services (meta_query em) s).0 ≡ ok catalog
      → contains name (managed_services catalog []) ≡ registered s em name
  services-registered em name s catalog scans own read =
      let (same, near) = Scans-query env em scans in
      let (there, back) = L.services-Tagged (meta_query em) name s catalog (inl near) read in
      contains-lists_tag name catalog
      ∙ agree (lists_tag name catalog) (registered s em name)
          (λ h.
            Tagged-registered s em name own
              (subst (λ x. Tagged (entries s) (place x) name) same (there h)))
          (λ h. back (
            subst (λ x. Tagged (entries s) (place x) name) (sym same)
              (registered-Tagged s em name _ refl h)))

  pub registered_named :
      (s : P.State) (em : EnterpriseMeta) (name : Text) → registered s em name ≡ true → name ≢ []
  registered_named s em name h =
      let (node, id, x, e, named, _) = registered-Tagged s em name _ refl h in
      subst (λ n. n ≢ []) named (L.entries_named s (place em) node id x e)

  is_tagged-if :
      (b : Bool) (name : Text) (x y : Option Instance)
      → is_tagged name (if b then x else y) ≡ (if b then is_tagged name x else is_tagged name y)
  is_tagged-if true name x y = refl
  is_tagged-if false name x y = refl

  pub register-registered :
      (r : CatalogRegistration) (o : RequestOptions) (s : P.State) (em : EnterpriseMeta)
      (name : Text)
      → r.node ≡ env.node_name
      → r.service_id ≡ r.service
      → r.service_id ≢ []
      → IsLocal local o.datacenter
      → Scans env (options_meta o)
      → Scans env em
      → (P.register r o s).0 ≡ ok tt
      → registered (P.register r o s).1 em name ≡ (
          if em == options_meta o && name == r.service
          then has_tag r.tags
          else registered s em name)
  register-registered r o s em name node same named near there scans done =
      ap (is_tagged name) (L.register-entries r o s (place em) env.node_name name near named done)
      ∙ rw (Scans-place env em (options_meta o) scans there, node, same) (ground arith)

  pub deregister-registered :
      (d : CatalogDeregistration) (o : RequestOptions) (s : P.State) (em : EnterpriseMeta)
      (name : Text)
      → d.node ≡ env.node_name
      → d.service_id ≢ []
      → IsLocal local o.datacenter
      → Scans env (options_meta o)
      → Scans env em
      → (P.deregister d o s).0 ≡ ok tt
      → registered (P.deregister d o s).1 em name
        ≡ (if em == options_meta o && name == d.service_id then false else registered s em name)
  deregister-registered d o s em name node named near there scans done =
      ap (is_tagged name) (L.deregister-entries d o s (place em) env.node_name name near named done)
      ∙ rw (Scans-place env em (options_meta o) scans there, node) (ground arith)
