-- ===== src/Tests/Consul.antt =====
-- The catalog of the in-memory platform behaves as Consul is documented to.
use terraform_aws_consul_lam.Prelude.{
  ◌≡◌, ◌≢◌, refl, sym, ap, ◌∙◌, subst, Text, text, text_eq, ◌==◌, Bool, true, false, ◌&&◌, ◌||◌,
  Option, none, some, List, [], ◌∷◌, ◌++◌, All, arith, Bool-cases, Option-cases, inl, inr,
  if◌then◌else◌,
}
use terraform_aws_consul_lam.Prelude.Dict.{
  Dict, lookup, erase, lookup-insert, lookup-erase, lookup-All,
}
use terraform_aws_consul_lam.Errors.{ok, err, external}
use terraform_aws_consul_lam.Exec.{Exec}
use terraform_aws_consul_lam.Structs.{EnterpriseMeta, em_eq}
use terraform_aws_consul_lam.Registrator.Event.{RequestOptions, CatalogRegistration}
use terraform_aws_consul_lam.Registrator.Sync.{has_tag}
use terraform_aws_consul_lam.Registrator.Convergence.Laws.{
  IsConsul, Keeps, options_meta, query_meta, Instance, Tagged, place, lists_tag,
}
use terraform_aws_consul_lam.Registrator.Convergence.Own.{OwnsTag}
use terraform_aws_consul_lam.Tests.Memory.{
  Memory, memory, key, key_eq, Catalog, named_only, memory_entries, merge, listing, memory_register,
  sample_config,
}

pub key-eq :
    (em em' : EnterpriseMeta) (node node' id id' : Text)
    → (key em node id == key em' node' id') ≡ (em == em' && node == node' && id == id')
key-eq em em' node node' id id' = ground arith

has_tag-append : (xs ys : List Text) → has_tag (xs ++ ys) ≡ (has_tag xs || has_tag ys)
unfolding has_tag
has_tag-append [] ys = refl
has_tag-append (x ∷ xs) ys = ground (arith, has_tag-append xs ys)

lists_tag-merge :
    (name k : Text) (tags : List Text) (d : Dict Text (List Text))
    → lists_tag name (merge k tags d) ≡ ((name == k && has_tag tags) || lists_tag name d)
unfolding lists_tag merge
lists_tag-merge name k tags [] = refl
lists_tag-merge name k tags ((j, old) ∷ d) =
    ground (arith, lists_tag-merge name k tags d, has_tag-append tags old)

pub named_only-named : (o : Option Instance) (x : Instance) → named_only o ≡ some x → x.service ≢ []
named_only-named none x h = cc
named_only-named (some y) x h = elim (Bool-cases (y.service == [])) [
  | inl e ↦ let k : none ≡ some x = sym (rw e refl) ∙ h in cc
  | inr e ↦
      let k : some y ≡ some x = sym (rw e refl) ∙ h in
      let same : y ≡ x = cc in subst (λ z. z.service ≢ []) same (λ z. ground arith)
]

-- Every service that is listed for a place has an instance there.
pub listing-Tagged :
    (em : EnterpriseMeta) (name : Text) (s : Memory) (rows : Catalog)
    → lists_tag name (listing em s.catalog rows) ≡ true
    → Tagged (memory_entries s) em name
unfolding listing lists_tag
listing-Tagged em name s [] h = cc
listing-Tagged em name s ((k, _) ∷ rows) h =
    elim (Bool-cases (k.namespace == em.namespace && k.partition == em.partition)) [
      | inr far ↦ listing-Tagged em name s rows (rw far at h)
      | inl near ↦ elim (Option-cases (named_only (lookup k s.catalog))) [
        | inl gone ↦ listing-Tagged em name s rows (rw (near, gone) at h)
        | inr (x, there) ↦
            let h' = sym (lists_tag-merge name x.service x.tags _) ∙ rw (near, there) at h in
            elim (Bool-cases (name == x.service && has_tag x.tags)) [
              | inr other ↦ listing-Tagged em name s rows (ground (arith, h', other))
              | inl mine ↦
                  let same_key : k ≡ key em k.node k.id = ground arith in
                  (
                    k.node,
                    k.id,
                    x,
                    subst (λ j. named_only (lookup j s.catalog) ≡ some x) same_key there,
                    ground (arith, mine),
                    ground (arith, mine),
                  )
            ]
      ]
    ]

-- Every instance of a place is listed.
Tagged-listing :
    (em : EnterpriseMeta) (node id : Text) (x y : Instance) (s : Memory) (rows : Catalog)
    → lookup (key em node id) rows ≡ some y
    → memory_entries s em node id ≡ some x
    → has_tag x.tags ≡ true
    → lists_tag x.service (listing em s.catalog rows) ≡ true
unfolding listing lookup
Tagged-listing em node id x y s [] found there tagged = cc
Tagged-listing em node id x y s ((k, z) ∷ rows) found there tagged =
    elim (Bool-cases (key em node id == k)) [
      | inl mine ↦
          let same_key : key em node id ≡ k = ground arith in
          let there' : named_only (lookup k s.catalog) ≡ some x =
            subst (λ j. named_only (lookup j s.catalog) ≡ some x) same_key there in
          let near : (k.namespace == em.namespace && k.partition == em.partition) ≡ true =
            rw (← same_key) (ground arith) in
          rw (near, there') (lists_tag-merge x.service x.service x.tags _ ∙ ground (arith, tagged))
      | inr other ↦
          let ih = Tagged-listing em node id x y s rows (rw other at found) there tagged in
          elim (Bool-cases (k.namespace == em.namespace && k.partition == em.partition)) [
            | inr far ↦ rw far ih
            | inl near ↦ elim (Option-cases (named_only (lookup k s.catalog))) [
              | inl gone ↦ rw (near, gone) ih
              | inr (w, at_k) ↦
                  rw (near, at_k)
                    (lists_tag-merge x.service w.service w.tags _ ∙ ground (arith, ih))
            ]
          ]
    ]

found_in :
    (em : EnterpriseMeta) (node id : Text) (x : Instance) (s : Memory)
    → memory_entries s em node id ≡ some x
    → (y : Instance) × (lookup (key em node id) s.catalog ≡ some y)
found_in em node id x s h = elim (Option-cases (lookup (key em node id) s.catalog)) [
  | inl gone ↦ let k : none ≡ some x = sym (ap named_only gone) ∙ h in cc
  | inr found ↦ found
]

pub listed :
    (em : EnterpriseMeta) (name : Text) (s : Memory)
    → Tagged (memory_entries s) em name
    → lists_tag name (listing em s.catalog s.catalog) ≡ true
listed em name s (node, id, x, there, named, tagged) =
    let (y, found) = found_in em node id x s there in
    subst (λ n. lists_tag n (listing em s.catalog s.catalog) ≡ true) named
      (Tagged-listing em node id x y s s.catalog found there tagged)

named_only-if :
    (b : Bool) (o o' : Option Instance)
    → named_only (if b then o else o') ≡ (if b then named_only o else named_only o')
named_only-if true o o' = refl
named_only-if false o o' = refl

pub register-memory :
    (r : CatalogRegistration) (o : RequestOptions) (s : Memory) (em : EnterpriseMeta)
    (node id : Text)
    → (memory_register r o s).0 ≡ ok tt
    → memory_entries (memory_register r o s).1 em node id ≡ (
        if em == place (options_meta o) && node == r.node && id == r.service_id
        then some (record { service = r.service; tags = r.tags })
        else memory_entries s em node id)
register-memory r o s em node id done = elim (Bool-cases (r.service == [])) [
  | inl e ↦ let k : err (external []) ≡ ok tt = sym (rw e refl) ∙ done in cc
  | inr e ↦ rw e (
      ap named_only (
        lookup-insert (key em node id) (key (place (options_meta o)) r.node r.service_id) _
          s.catalog)
      ∙ named_only-if (key em node id == key (place (options_meta o)) r.node r.service_id) _ _
      ∙ rw (key-eq em (place (options_meta o)) node r.node id r.service_id, e) refl)
]

pub deregister-memory :
    (at : EnterpriseMeta) (node' id' : Text) (s : Memory) (em : EnterpriseMeta) (node id : Text)
    → named_only (lookup (key em node id) (erase (key at node' id') s.catalog))
      ≡ (if em == at && node == node' && id == id' then none else memory_entries s em node id)
deregister-memory at node' id' s em node id =
    ap named_only (lookup-erase (key em node id) (key at node' id') s.catalog)
    ∙ named_only-if (key em node id == key at node' id') none (lookup (key em node id) s.catalog)
    ∙ rw (key-eq em at node node' id id') refl

pub kept :
    {A : Type 0} (m : Exec Memory A)
    → ((s : Memory) → (m s).1.catalog ≡ s.catalog)
    → Keeps memory_entries m
kept m h = record { at = λ s em node id. ap (λ c. named_only (lookup (key em node id) c)) (h s) }

pub default-ne-nil : text "default" ≢ []
unfolding text
default-ne-nil = λ h. cc

abbrev pub memory-IsConsul : IsConsul memory []
memory-IsConsul = record {
  entries = memory_entries;
  entries_named = λ s em node id x h. named_only-named (lookup (key em node id) s.catalog) x h;
  services-Tagged = λ q name s catalog near read.
      let e : listing (place (query_meta q)) s.catalog s.catalog ≡ catalog = cc in
      rw (← e) (
        listing-Tagged (place (query_meta q)) name s s.catalog,
        listed (place (query_meta q)) name s,
      );
  register-entries = λ r o s em node id near named done. register-memory r o s em node id done;
  deregister-entries = λ d o s em node id near named done.
      deregister-memory (place (options_meta o)) d.node d.service_id s em node id;
  namespaces_named = λ partition s names read.
      let e : text "default" ∷ [] ≡ names = cc in subst (All (λ n. n ≢ [])) e (default-ne-nil, tt);
  services_keep = λ q. kept _ (λ s. refl);
  set_config_keeps = λ entry o. kept _ (λ s. refl);
  delete_config_keeps = λ kind name o. kept _ (λ s. refl);
  namespaces_keep = λ partition. kept _ (λ s. refl);
  ca_roots_keeps = kept _ (λ s. refl);
  ca_leaf_keeps = λ name. kept _ (λ s. refl);
  store_set_keeps = λ key value. kept _ (λ s. refl);
  store_delete_keeps = λ key. kept _ (λ s. refl);
  list_functions_keeps = kept _ (λ s. refl);
}

-- It is enough to look at the rows.
pub rows-OwnsTag :
    (s : Memory)
    → All
        (λ (k, x). has_tag x.tags ≡ true → (k.node ≡ sample_config.node_name) × (k.id ≡ x.service))
        s.catalog
    → OwnsTag memory sample_config [] memory-IsConsul s
rows-OwnsTag s rows em node id x h tagged =
    let (y, found) = found_in em node id x s h in
    let same : y ≡ x = shown y x (sym (ap named_only found) ∙ h) in
    lookup-All _ (key em node id) x s.catalog rows (found ∙ ap some same) tagged
  where
    shown : (y x : Instance) → named_only (some y) ≡ some x → y ≡ x
    shown y x e = ground (arith, e)
