-- ===== src/Structs/Paths.antt =====
-- The parameter path and the SPIFFE path each name one service.
use terraform_aws_consul_lam.Prelude.{
  ◌≡◌, ◌↔◌, refl, sym, ◌∙◌, arith, Text, text, ◌==◌, text_eq, List, [], ◌∷◌, All, Bool-cases, inl,
  inr, if◌then◌else◌,
}
use terraform_aws_consul_lam.Strings.{join}
use terraform_aws_consul_lam.Strings.Split.{Lacks, join-injective}
use terraform_aws_consul_lam.Structs.{
  Service, extension_path, spiffe_path, namespace_or_default, partition_or_default,
  datacenter_or_default, default,
}

-- No name of the service holds a slash.
pub record IsSlashFree (s : Service) : Type 0 where
  pub name : Lacks b'/' s.name
  pub namespace : Lacks b'/' (namespace_or_default s)
  pub partition : Lacks b'/' (partition_or_default s)
  pub datacenter : Lacks b'/' (datacenter_or_default s)

path_parts : Service → List Text
path_parts s = [] ∷ partition_or_default s ∷ namespace_or_default s ∷ s.name ∷ []

extension_path-parts : (s : Service) → extension_path s ≡ join b'/' (path_parts s)
unfolding extension_path join path_parts
extension_path-parts s = refl

path_parts-Lacks : (s : Service) → IsSlashFree s → All (Lacks b'/') (path_parts s)
unfolding path_parts
path_parts-Lacks s h = (tt, (h.partition, (h.namespace, (h.name, tt))))

-- Two services whose names hold no slash have the same parameter exactly if they have the same
-- partition, namespace and name, whatever their datacenters are.
pub extension_path-injective :
    (s t : Service)
    → IsSlashFree s
    → IsSlashFree t
    → (extension_path s ≡ extension_path t) ↔ (
        (partition_or_default s ≡ partition_or_default t)
        × (namespace_or_default s ≡ namespace_or_default t)
        × (s.name ≡ t.name))
unfolding path_parts
extension_path-injective s t hs ht = (
  λ e.
      let parts =
        join-injective b'/' (path_parts s) (path_parts t) (λ h. cc) (λ h. cc)
          (path_parts-Lacks s hs) (path_parts-Lacks t ht)
          (sym (extension_path-parts s) ∙ e ∙ extension_path-parts t) in
      (cc parts, cc parts, cc parts),
  λ same. extension_path-parts s ∙ rw (same.0, same.1, same.2) refl ∙ sym (extension_path-parts t),
)

base_parts : Service → List Text
base_parts s =
    text "ns"
    ∷ namespace_or_default s
    ∷ text "dc"
    ∷ datacenter_or_default s
    ∷ text "svc"
    ∷ s.name
    ∷ []

spiffe_parts : Service → List Text
spiffe_parts s =
    []
    ∷ (if partition_or_default s == default
        then base_parts s
        else text "ap" ∷ partition_or_default s ∷ base_parts s)

spiffe_path-parts : (s : Service) → spiffe_path s ≡ join b'/' (spiffe_parts s)
unfolding spiffe_path join spiffe_parts base_parts text
spiffe_path-parts s = elim (Bool-cases (partition_or_default s == default)) [
  | inl h ↦ rw h refl
  | inr h ↦ rw h refl
]

base_parts-Lacks : (s : Service) → IsSlashFree s → All (Lacks b'/') (base_parts s)
unfolding base_parts text
base_parts-Lacks s h =
    (omega arith, (h.namespace, (omega arith, (h.datacenter, (omega arith, (h.name, tt))))))

ap_lem : Lacks b'/' (text "ap")
unfolding text
ap_lem = omega arith

spiffe_parts-Lacks : (s : Service) → IsSlashFree s → All (Lacks b'/') (spiffe_parts s)
unfolding spiffe_parts
spiffe_parts-Lacks s h = elim (Bool-cases (partition_or_default s == default)) [
  | inl e ↦ rw e (tt, base_parts-Lacks s h)
  | inr e ↦ rw e (tt, (ap_lem, (h.partition, base_parts-Lacks s h)))
]

-- Two services whose names hold no slash have the same SPIFFE path only if they have the same
-- partition, namespace, datacenter and name.
pub spiffe_path-injective :
    (s t : Service)
    → IsSlashFree s
    → IsSlashFree t
    → spiffe_path s ≡ spiffe_path t
    → (partition_or_default s ≡ partition_or_default t)
      × (namespace_or_default s ≡ namespace_or_default t)
      × (datacenter_or_default s ≡ datacenter_or_default t)
      × (s.name ≡ t.name)
unfolding spiffe_parts base_parts
spiffe_path-injective s t hs ht e =
    let parts =
      join-injective b'/' (spiffe_parts s) (spiffe_parts t) (λ h. cc) (λ h. cc)
        (spiffe_parts-Lacks s hs) (spiffe_parts-Lacks t ht)
        (sym (spiffe_path-parts s) ∙ e ∙ spiffe_path-parts t) in
    ground arith
