-- ===== src/Extension/Plain.antt =====
-- The data that the registrator hands over, as Consul gives it: ASCII texts, and no peers.
use terraform_aws_consul_lam.Prelude.{
  ◌≡◌, refl, subst, Text, none, List, [], ◌∷◌, All, ◌<◌, Bool-cases, inl, inr, ◌==◌, text_eq,
}
use terraform_aws_consul_lam.Errors.{ok}
use terraform_aws_consul_lam.Structs.{ExtensionData, ext_data_eq}
use terraform_aws_consul_lam.Registrator.Platform.{Platform, CaRootList, CaRoot, LeafCert}
use terraform_aws_consul_lam.Registrator.Reconcile.{active_root, extension_data}

abbrev pub IsAscii : Text → Type 0
IsAscii = All (λ c. c < 128)

-- Data as the registrator writes it: ASCII, and without peers.
pub record IsPlain (d : ExtensionData) : Type 0 where
  pub private_key : IsAscii d.private_key_pem
  pub cert : IsAscii d.cert_pem
  pub root_cert : IsAscii d.root_cert_pem
  pub trust_domain : IsAscii d.trust_domain
  pub peers : d.peers ≡ none

-- What Consul gives is ASCII: certificates and keys in PEM, and the name of its trust domain.
pub record GivesAscii (P : Platform) : Type 0 where
  pub roots :
      (s : P.State) (list : CaRootList)
      → (P.ca_roots s).0 ≡ ok list
      → IsAscii list.trust_domain × All (λ root. IsAscii root.root_cert_pem) list.roots
  pub leaf :
      (name : Text) (s : P.State) (leaf : LeafCert)
      → (P.ca_leaf name s).0 ≡ ok leaf
      → IsAscii leaf.private_key_pem × IsAscii leaf.cert_pem

pub active_root-IsAscii :
    (id : Text) (roots : List CaRoot) (root : CaRoot)
    → All (λ r. IsAscii r.root_cert_pem) roots
    → active_root id roots ≡ ok root
    → IsAscii root.root_cert_pem
unfolding active_root
active_root-IsAscii id [] root h e = cc
active_root-IsAscii id (r ∷ roots) root (h, hs) e = elim (Bool-cases (r.id == id)) [
  | inl found ↦
      let k : ok r ≡ ok root = rw found at e in
      let same : r ≡ root = cc in subst (λ x. IsAscii x.root_cert_pem) same h
  | inr other ↦ active_root-IsAscii id roots root hs (rw other at e)
]

pub extension_data-IsPlain :
    (list : CaRootList) (root : CaRoot) (leaf : LeafCert)
    → IsAscii list.trust_domain
    → IsAscii root.root_cert_pem
    → IsAscii leaf.private_key_pem × IsAscii leaf.cert_pem
    → IsPlain (extension_data list root leaf)
unfolding extension_data
extension_data-IsPlain list root leaf td rt (key, cert) = record {
  private_key = key;
  cert = cert;
  root_cert = rt;
  trust_domain = td;
  peers = refl;
}
