-- ===== src/Structs/Sni.antt =====
-- The server name that the extension sends to the mesh gateway names one service.
use terraform_aws_consul_lam.Prelude.{
  ◌≡◌, ◌≢◌, sym, ap, ◌∙◌, Text, text, ◌==◌, text_eq, List, [], ◌∷◌, ◌++◌, All, if◌then◌else◌, arith,
  Bool-cases, inl, inr,
}
use terraform_aws_consul_lam.Strings.{split, join}
use terraform_aws_consul_lam.Strings.Split.{Lacks, split-join_last, split-injective}
use terraform_aws_consul_lam.Structs.{
  Service, default, internal, internal_version, sni, datacenter_or_default, namespace_or_default,
  partition_or_default,
}

-- The labels before the trust domain
abbrev labels : Service → List Text
labels s =
    if partition_or_default s == default
    then s.name ∷ namespace_or_default s ∷ datacenter_or_default s ∷ internal ∷ []
    else s.name
      ∷ namespace_or_default s
      ∷ partition_or_default s
      ∷ datacenter_or_default s
      ∷ internal_version
      ∷ []

-- The names of the service hold no dot, and there is no subset, which the extension never sets.
pub record IsDotFree (s : Service) : Type 0 where
  pub no_subset : s.subset ≡ []
  pub name : Lacks b'.' s.name
  pub namespace : Lacks b'.' (namespace_or_default s)
  pub partition : Lacks b'.' (partition_or_default s)
  pub datacenter : Lacks b'.' (datacenter_or_default s)
  pub datacenter-ne-internal : datacenter_or_default s ≢ internal

internal-Lacks : Lacks b'.' internal
unfolding text
internal-Lacks = omega arith

internal_version-Lacks : Lacks b'.' internal_version
unfolding text
internal_version-Lacks = omega arith

internal-ne-internal_version : internal ≢ internal_version
unfolding text
internal-ne-internal_version = λ h. cc

sni-labels : (s : Service) → s.subset ≡ [] → sni s ≡ join b'.' (labels s ++ (s.trust_domain ∷ []))
unfolding sni
sni-labels s h = elim (Bool-cases (partition_or_default s == default)) [
  | inl p ↦ ground arith
  | inr p ↦ ground arith
]

labels-Lacks : (s : Service) → IsDotFree s → All (Lacks b'.') (labels s)
labels-Lacks s h = elim (Bool-cases (partition_or_default s == default)) [
  | inl p ↦ rw p (h.name, (h.namespace, (h.datacenter, (internal-Lacks, tt))))
  | inr p ↦
      rw p (h.name, (h.namespace, (h.partition, (h.datacenter, (internal_version-Lacks, tt)))))
]

split-sni : (s : Service) → IsDotFree s → split b'.' (sni s) ≡ labels s ++ split b'.' s.trust_domain
split-sni s h = rw (sni-labels s h.no_subset) (split-join_last b'.' (labels s) _ (labels-Lacks s h))

-- What the server name says of a service
pub record SameService (s t : Service) : Type 0 where
  pub name : s.name ≡ t.name
  pub namespace : namespace_or_default s ≡ namespace_or_default t
  pub partition : partition_or_default s ≡ partition_or_default t
  pub datacenter : datacenter_or_default s ≡ datacenter_or_default t
  pub trust_domain : s.trust_domain ≡ t.trust_domain

-- Services with the same server name are the same service, if they have no subset, their names
-- hold no dots and no datacenter is called `internal`.
pub sni-injective : (s t : Service) → IsDotFree s → IsDotFree t → sni s ≡ sni t → SameService s t
sni-injective s t hs ht e =
    let parts = sym (split-sni s hs) ∙ ap (split b'.') e ∙ split-sni t ht in
    ground (
      arith,
      hs.datacenter-ne-internal,
      ht.datacenter-ne-internal,
      internal-ne-internal_version,
      split-injective b'.' s.trust_domain t.trust_domain,
    )
