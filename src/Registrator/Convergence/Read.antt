-- ===== src/Registrator/Convergence/Read.antt =====
-- What a full pass reads: the catalog of every scanned partition and namespace, and the scan itself.
use terraform_aws_consul_lam.Prelude.{
  ◌≡◌, ◌≢◌, refl, sym, ◌∙◌, subst, Text, ◌==◌, text_eq, Bool, true, false, ◌||◌, none, some, List,
  [], ◌∷◌, All, All-append, arith, Bool-cases, Option-cases, inl, inr,
}
use mathlib.Core.Bool.{false≢true}
use terraform_aws_consul_lam.Prelude.Dict.{
  Dict, lookup, insert, contains, NodupKeys, insert-NodupKeys, insert-All, lookup-insert,
  lookup-nil,
}
use mathlib.Core.List.{map}
use terraform_aws_consul_lam.Errors.{ok}
use terraform_aws_consul_lam.Exec.{Exec, bind-eq-ok}
use terraform_aws_consul_lam.Structs.{EnterpriseMeta, em_eq}
use terraform_aws_consul_lam.Registrator.Config.{Config}
use terraform_aws_consul_lam.Registrator.Platform.{Platform}
use terraform_aws_consul_lam.Registrator.Sync.{
  ServiceMap, meta_key, meta_query, managed_services, services_loop, metas_loop,
  get_enterprise_metas, get_consul_services,
}
use terraform_aws_consul_lam.Registrator.Sync.View.{has}
use terraform_aws_consul_lam.Registrator.Convergence.Laws.{IsConsul, Keeps}
use terraform_aws_consul_lam.Registrator.Convergence.Own.{
  Scans, registered, OwnsTag, services-registered, registered_named,
}
use terraform_aws_consul_lam.Registrator.Convergence.Carry.{bind-Keeps, lift-Keeps, kept}

-- Whether the metadata is scanned
unfoldable pub member : EnterpriseMeta → List EnterpriseMeta → Bool
member em [] = false
member em (x ∷ xs) = em == x || member em xs

map-Scans :
    (env : Config) (p : Text)
    → env.is_enterprise ≡ true
    → p ≢ []
    → (names : List Text) → All (λ n. n ≢ []) names
    → All (Scans env) (map (λ n. record { namespace = n; partition = p }) names)
map-Scans env p ent named [] _ = tt
map-Scans env p ent named (n ∷ names) (h, hs) =
    (rw ent (h, named), map-Scans env p ent named names hs)

pub zero-Scans : (env : Config) → env.is_enterprise ≡ false → Scans env (meta_key none)
zero-Scans env oss = rw oss refl

-- What holds of each key of a map
pub All-keys :
    (Q : Text → Type 0) (d : Dict Text (Unit {0}))
    → ((name : Text) → contains name d ≡ true → Q name)
    → All (λ (name, _). Q name) d
unfolding contains
All-keys Q [] h = tt
All-keys Q ((k, v) ∷ d) h = (
  h k (unfold lookup in ground arith),
  All-keys Q d (λ name there. h name (unfold lookup in ground (arith, there))),
)

module _ (P : Platform) (env : Config) (local : Text) (L : IsConsul P local) where
  open L use {entries}

  abbrev view : P.State → EnterpriseMeta → Text → Bool
  view = registered P env local L

  -- A call that leaves the catalog alone leaves the tag to the registrator.
  pub Keeps-OwnsTag :
      {A : Type 0} (m : Exec P.State A) (s : P.State)
      → Keeps entries m
      → OwnsTag P env local L s
      → OwnsTag P env local L (m s).1
  Keeps-OwnsTag m s k own em node id x e = own em node id x (sym (k.at s em node id) ∙ e)

  -- What has been read so far agrees with the catalog.
  pub record IsReading (found : ServiceMap) (s : P.State) : Type 0 where
    pub nodup : NodupKeys found
    pub scanned : All (λ (em, _). Scans env em) found
    pub named : All (λ (_, d). All (λ (name, _). name ≢ []) d) found
    pub agrees :
        (em : EnterpriseMeta) (d : Dict Text Unit) (name : Text)
        → lookup em found ≡ some d
        → contains name d ≡ view s em name

  insert-IsReading :
      (em : EnterpriseMeta) (d : Dict Text Unit) (found : ServiceMap) (s s' : P.State)
      → IsReading found s
      → Scans env em
      → ((name : Text) → contains name d ≡ view s em name)
      → ((em' : EnterpriseMeta) (name : Text) → view s' em' name ≡ view s em' name)
      → IsReading (insert em d found) s'
  insert-IsReading em d found s s' r scanned h same = record {
    nodup = insert-NodupKeys em d found r.nodup;
    scanned = insert-All _ em d found scanned r.scanned;
    named =
        insert-All (λ (_, d). All (λ (name, _). name ≢ []) d) em d found
          (All-keys (λ name. name ≢ []) d
            (λ name there. registered_named P env local L s em name (sym (h name) ∙ there)))
          r.named;
    agrees = λ em' d' name e.
        ground (arith, lookup-insert em' em d found, h name, r.agrees em' d' name, same em' name);
  }

  services_loop-IsReading :
      (metas : List EnterpriseMeta) (acc found : ServiceMap) (s : P.State)
      → All (Scans env) metas
      → IsReading acc s
      → OwnsTag P env local L s
      → (services_loop P metas acc s).0 ≡ ok found
      → IsReading found (services_loop P metas acc s).1
  unfolding services_loop
  services_loop-IsReading [] acc found s _ r own h =
      let same : acc ≡ found = cc in subst (λ m. IsReading m s) same r
  services_loop-IsReading (em ∷ metas) acc found s (scanned, hs) r own h =
      let (catalog, read, q) = bind-eq-ok (P.services (meta_query em)) _ s h in
      subst (λ (x : _). IsReading found x.1) (sym q)
        (services_loop-IsReading metas _ found (P.services (meta_query em) s).1 hs
          (insert-IsReading em _ acc s _ r scanned
            (λ name. services-registered P env local L em name s catalog scanned own read)
            (λ em' name.
              kept P env local L (P.services (meta_query em)) (L.services_keep (meta_query em)) s
                em' name))
          (Keeps-OwnsTag (P.services (meta_query em)) s (L.services_keep (meta_query em)) own)
          (rw q at h))

  services_loop_covers :
      (metas : List EnterpriseMeta) (acc found : ServiceMap) (s : P.State) (em : EnterpriseMeta)
      → (services_loop P metas acc s).0 ≡ ok found
      → (member em metas || contains em acc) ≡ true
      → contains em found ≡ true
  unfolding services_loop member
  services_loop_covers [] acc found s em h m = ground arith
  services_loop_covers (x ∷ metas) acc found s em h m =
      let (catalog, _, q) = bind-eq-ok (P.services (meta_query x)) _ s h in
      services_loop_covers metas _ found (P.services (meta_query x) s).1 em (rw q at h)
        (unfold contains in ground (arith, lookup-insert em x (managed_services catalog []) acc))

  services_loop_only :
      (metas : List EnterpriseMeta) (acc found : ServiceMap) (s : P.State) (em : EnterpriseMeta)
      → (services_loop P metas acc s).0 ≡ ok found
      → contains em found ≡ true
      → (member em metas || contains em acc) ≡ true
  unfolding services_loop member contains
  services_loop_only [] acc found s em h m = ground arith
  services_loop_only (x ∷ metas) acc found s em h m =
      let (catalog, _, q) = bind-eq-ok (P.services (meta_query x)) _ s h in
      let ih = services_loop_only metas _ found (P.services (meta_query x) s).1 em (rw q at h) m in
      ground (arith, ih, lookup-insert em x (managed_services catalog []) acc)

  -- Nothing is read of what is not scanned.
  pub get_consul_services_only :
      (metas : List EnterpriseMeta) (found : ServiceMap) (s : P.State) (em : EnterpriseMeta)
      (name : Text)
      → (get_consul_services P metas s).0 ≡ ok found
      → member em metas ≡ false
      → has em name found ≡ false
  unfolding get_consul_services has contains
  get_consul_services_only metas found s em name h m = elim (Option-cases (lookup em found)) [
    | inl missing ↦ rw (missing, has) refl
    | inr (d, there) ↦
        let only = services_loop_only metas [] found s em h (rw (there, contains) refl) in
        absurd (false≢true (rw m at only))
  ]

  services_loop-Keeps :
      (metas : List EnterpriseMeta) (acc : ServiceMap) → Keeps entries (services_loop P metas acc)
  unfolding services_loop
  services_loop-Keeps [] acc = lift-Keeps (ok acc)
  services_loop-Keeps (em ∷ metas) acc =
      bind-Keeps _ _ (L.services_keep (meta_query em)) (λ catalog. services_loop-Keeps metas _)

  IsReading-nil : (s : P.State) → IsReading [] s
  IsReading-nil s = record {
    nodup = tt;
    scanned = tt;
    named = tt;
    agrees = λ em d name h.
        let e : lookup em (let none_read : ServiceMap = [] in none_read) ≡ none = lookup-nil em in
        cc;
  }

  -- For every scanned partition and namespace, the services that are read are those of the catalog.
  pub has-get_consul_services :
      (metas : List EnterpriseMeta) (found : ServiceMap) (s : P.State) (em : EnterpriseMeta)
      (name : Text)
      → All (Scans env) metas
      → OwnsTag P env local L s
      → (get_consul_services P metas s).0 ≡ ok found
      → member em metas ≡ true
      → has em name found ≡ view (get_consul_services P metas s).1 em name
  unfolding get_consul_services has
  has-get_consul_services metas found s em name hs own h m =
      let r = services_loop-IsReading metas [] found s hs (IsReading-nil s) own h in
      let c = services_loop_covers metas [] found s em h (rw m) in
      unfold contains in
      elim (Option-cases (lookup em found)) [
        | inl missing ↦ absurd (false≢true (rw (missing, contains) at c))
        | inr (d, there) ↦ rw (there, has) (r.agrees em d name there)
      ]

  pub get_consul_services-IsReading :
      (metas : List EnterpriseMeta) (found : ServiceMap) (s : P.State)
      → All (Scans env) metas
      → OwnsTag P env local L s
      → (get_consul_services P metas s).0 ≡ ok found
      → IsReading found (get_consul_services P metas s).1
  unfolding get_consul_services
  get_consul_services-IsReading metas found s hs own h =
      services_loop-IsReading metas [] found s hs (IsReading-nil s) own h

  pub get_consul_services-Keeps :
      (metas : List EnterpriseMeta) → Keeps entries (get_consul_services P metas)
  unfolding get_consul_services
  get_consul_services-Keeps metas = services_loop-Keeps metas []

  -- Every partition and namespace that is scanned has a name, or is the one of a Consul without them.
  metas_loop-Scans :
      (partitions : Dict Text Unit) (acc metas : List EnterpriseMeta) (s : P.State)
      → env.is_enterprise ≡ true
      → All (λ (p, _). p ≢ []) partitions
      → All (Scans env) acc
      → (metas_loop P partitions acc s).0 ≡ ok metas
      → All (Scans env) metas
  unfolding metas_loop
  metas_loop-Scans [] acc metas s ent _ k h =
      let e : acc ≡ metas = cc in subst (All (Scans env)) e k
  metas_loop-Scans ((p, _) ∷ partitions) acc metas s ent (named, ns) k h =
      let (names, read, q) = bind-eq-ok (P.namespaces p) _ s h in
      metas_loop-Scans partitions _ metas (P.namespaces p s).1 ent ns
        (All-append (Scans env) acc _ k
          (map-Scans env p ent named names (L.namespaces_named p s names read)))
        (rw q at h)

  metas_loop-Keeps :
      (partitions : Dict Text Unit) (acc : List EnterpriseMeta)
      → Keeps entries (metas_loop P partitions acc)
  unfolding metas_loop
  metas_loop-Keeps [] acc = lift-Keeps (ok acc)
  metas_loop-Keeps ((p, _) ∷ partitions) acc =
      bind-Keeps _ _ (L.namespaces_keep p) (λ names. metas_loop-Keeps partitions _)

  pub get_enterprise_metas-Scans :
      (metas : List EnterpriseMeta) (s : P.State)
      → All (λ (p, _). p ≢ []) env.partitions
      → (get_enterprise_metas P env s).0 ≡ ok metas
      → All (Scans env) metas
  unfolding get_enterprise_metas
  get_enterprise_metas-Scans metas s named h = elim (Bool-cases env.is_enterprise) [
    | inl ent ↦ metas_loop-Scans env.partitions [] metas s ent named tt (rw ent at h)
    | inr oss ↦
        let h' : ok (meta_key none ∷ []) ≡ ok metas = rw oss at h in
        let e : meta_key none ∷ [] ≡ metas = cc in
        subst (All (Scans env)) e (zero-Scans env oss, tt)
  ]

  pub get_enterprise_metas-Keeps : Keeps entries (get_enterprise_metas P env)
  unfolding get_enterprise_metas
  get_enterprise_metas-Keeps = elim (Bool-cases env.is_enterprise) [
    | inl ent ↦ rw ent (metas_loop-Keeps env.partitions [])
    | inr oss ↦ rw oss (lift-Keeps (ok (meta_key none ∷ [])))
  ]
