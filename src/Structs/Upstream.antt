-- ===== src/Structs/Upstream.antt =====
-- `ParseUpstream` reads back every upstream that is written in its format, and when it accepts a text.
use terraform_aws_consul_lam.Prelude.{
  ◌≡◌, ◌≢◌, refl, ap, Text, Option, none, some, List, [], ◌∷◌, All, arith, inl, inr, ◌↔◌, true,
}
use mathlib.Core.Bool.{false≢true}
use terraform_aws_consul_lam.Prelude.Int.{ℤ}
use terraform_aws_consul_lam.Errors.{ok, is_ok, Result-cases}
use terraform_aws_consul_lam.Strings.{split, join, atoi, itoa}
use terraform_aws_consul_lam.Strings.Split.{Lacks, split-join}
use terraform_aws_consul_lam.Strings.Decimal.{IsInt64, atoi-itoa, itoa-Lacks}
use terraform_aws_consul_lam.Structs.{
  Service, no_service, EnterpriseMeta, default, parse_upstream, parse_parts, qualified_name,
  qualified_meta, upstream_datacenter,
}

-- The parts of the qualified name: the name, and then the namespace and the partition, if given
pub data Qualifier : Type 0 where
  unqualified : Qualifier
  in_namespace : (ns : Text) → Qualifier
  in_partition : (ns ap : Text) → Qualifier

abbrev pub qualified_parts : Text → Qualifier → List Text
qualified_parts name unqualified = name ∷ []
qualified_parts name (in_namespace ns) = name ∷ ns ∷ []
qualified_parts name (in_partition ns ap) = name ∷ ns ∷ ap ∷ []

abbrev pub qualifier_meta : Qualifier → Option EnterpriseMeta
qualifier_meta unqualified = none
qualifier_meta (in_namespace ns) = some (record { namespace = ns; partition = default })
qualifier_meta (in_partition ns ap) = some (record { namespace = ns; partition = ap })

abbrev pub datacenter_parts : Option Text → List Text
datacenter_parts none = []
datacenter_parts (some dc) = dc ∷ []

abbrev pub datacenter_text : Option Text → Text
datacenter_text none = []
datacenter_text (some dc) = dc

-- `name[.namespace[.partition]]:port[:datacenter]`
pub upstream_text : Text → Qualifier → ℤ → Option Text → Text
upstream_text name q port dc =
    join b':' (join b'.' (qualified_parts name q) ∷ itoa port ∷ datacenter_parts dc)

qualified_lem :
    (name : Text) (q : Qualifier)
    → (qualified_name (qualified_parts name q) ≡ name)
      × (qualified_meta (qualified_parts name q) ≡ qualifier_meta q)
unfolding qualified_name qualified_meta
qualified_lem name unqualified = (refl, refl)
qualified_lem name (in_namespace ns) = (refl, refl)
qualified_lem name (in_partition ns ap) = (refl, refl)

qualified_parts-ne-nil : (name : Text) (q : Qualifier) → qualified_parts name q ≢ []
qualified_parts-ne-nil name unqualified = λ h. cc
qualified_parts-ne-nil name (in_namespace ns) = λ h. cc
qualified_parts-ne-nil name (in_partition ns ap) = λ h. cc

upstream_datacenter_lem :
    (dc : Option Text) → upstream_datacenter (datacenter_parts dc) ≡ datacenter_text dc
unfolding upstream_datacenter
upstream_datacenter_lem none = refl
upstream_datacenter_lem (some dc) = refl

parse_parts_lem :
    (s name : Text) (q : Qualifier) (port : ℤ) (dc : Option Text)
    → IsInt64 port
    → All (Lacks b'.') (qualified_parts name q)
    → parse_parts s (join b'.' (qualified_parts name q) ∷ itoa port ∷ datacenter_parts dc)
      ≡ ok (record no_service {
        name = name;
        port = port;
        enterprise_meta = qualifier_meta q;
        datacenter = datacenter_text dc;
      })
unfolding parse_parts
parse_parts_lem s name q port dc fits no_dot =
    let (same_name, same_meta) = qualified_lem name q in
    rw (
      atoi-itoa port fits,
      split-join b'.' (qualified_parts name q) (qualified_parts-ne-nil name q) no_dot,
      same_name,
      same_meta,
      upstream_datacenter_lem dc,
    )

-- A written upstream is read back, if its port is an int64, no part of its qualified name holds
-- a dot, and neither the qualified name nor the datacenter holds a colon.
pub parse_upstream-upstream_text :
    (name : Text) (q : Qualifier) (port : ℤ) (dc : Option Text)
    → IsInt64 port
    → All (Lacks b'.') (qualified_parts name q)
    → Lacks b':' (join b'.' (qualified_parts name q))
    → All (Lacks b':') (datacenter_parts dc)
    → parse_upstream (upstream_text name q port dc)
      ≡ ok (record no_service {
        name = name;
        port = port;
        enterprise_meta = qualifier_meta q;
        datacenter = datacenter_text dc;
      })
unfolding parse_upstream upstream_text
parse_upstream-upstream_text name q port dc fits no_dot no_colon no_colon' =
    rw
      (split-join b':' (join b'.' (qualified_parts name q) ∷ itoa port ∷ datacenter_parts dc)
        (λ h. cc) (no_colon, (itoa-Lacks port, no_colon')))
      (parse_parts_lem (upstream_text name q port dc) name q port dc fits no_dot)

-- The parts have a port, which is a number.
abbrev pub HasPort : List Text → Type 0
HasPort parts =
    (qualified : Text) × (port : Text) × (rest : List Text) × (n : ℤ) × (parts
      ≡ qualified ∷ port ∷ rest)
    × (atoi port ≡ ok n)

parse_parts_ok : (s : Text) (parts : List Text) → is_ok (parse_parts s parts) ≡ true → HasPort parts
unfolding parse_parts
parse_parts_ok s [] h = cc
parse_parts_ok s (_ ∷ []) h = cc
parse_parts_ok s (qualified ∷ port ∷ rest) h = elim (Result-cases (atoi port)) [
  | inl (n, e) ↦ (qualified, port, rest, n, refl, e)
  | inr (x, e) ↦ absurd (false≢true (rw e at h))
]

-- An upstream is accepted exactly if it has a second part, and that part is a number.
pub parse_upstream_ok : (s : Text) → (is_ok (parse_upstream s) ≡ true) ↔ HasPort (split b':' s)
unfolding parse_upstream parse_parts
parse_upstream_ok s = (
  parse_parts_ok s (split b':' s),
  λ (qualified, port, rest, n, parts, e). rw (parts, parse_parts) (rw e refl),
)

-- A parsed upstream has no trust domain yet.
parse_parts-trust_domain :
    (s : Text) (parts : List Text) (up : Service)
    → parse_parts s parts ≡ ok up
    → up.trust_domain ≡ []
unfolding parse_parts
parse_parts-trust_domain s [] up h = cc
parse_parts-trust_domain s (_ ∷ []) up h = cc
parse_parts-trust_domain s (q ∷ p ∷ rest) up h = ground arith

pub parse_upstream-trust_domain :
    (s : Text) (up : Service) → parse_upstream s ≡ ok up → up.trust_domain ≡ []
unfolding parse_upstream
parse_upstream-trust_domain s up h = parse_parts-trust_domain s (split b':' s) up h
