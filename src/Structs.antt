-- ===== src/Structs.antt =====
-- consul-lambda/structs/service.go and ext_data.go: the service that both programs describe, the
-- names derived from it, and the data that one program hands to the other.
pub mod Upstream
pub mod Sni
pub mod ExtensionPath
pub mod Paths
use terraform_aws_consul_lam.Prelude.{
  ◌≡◌, refl, Text, text, Eq, ◌==◌, text_eq, text_discrete, Bool, true, false, not, ◌&&◌, Option,
  none, some, List, [], ◌∷◌, ◌++◌, if◌then◌else◌,
}
use terraform_aws_consul_lam.Prelude.Int.{ℤ, pos}
use terraform_aws_consul_lam.Errors.{
  Result, ok, err, ◌>>=◌, map_error, invalid_service_format, invalid_service_port,
}
use terraform_aws_consul_lam.Strings.{split, join, atoi}
use terraform_aws_consul_lam.Url.{url_string}

pub record EnterpriseMeta : Type 0 where
  pub namespace : Text
  pub partition : Text

unfoldable pub em_discrete : Discrete EnterpriseMeta
unfolding text_discrete
em_discrete = hlevel text_discrete

-- Go compares such structs, as keys of maps, field by field.
instance unfoldable pub em_eq : Eq EnterpriseMeta
unfolding em_discrete
em_eq = record { dec = em_discrete }

abbrev pub default : Text
default = text "default"

abbrev pub internal : Text
internal = text "internal"

abbrev pub internal_version : Text
internal_version = text "internal-v1"

-- `NewEnterpriseMeta`; `none` is the nil pointer.
unfoldable pub new_enterprise_meta : Text → Text → Option EnterpriseMeta
new_enterprise_meta ap ns =
    if ap == [] && ns == []
    then none
    else some (record {
      namespace = if ns == [] then default else ns;
      partition = if ap == [] then default else ap;
    })

pub record Service : Type 0 where
  pub enterprise_meta : Option EnterpriseMeta
  pub name : Text
  pub port : ℤ
  pub datacenter : Text
  pub trust_domain : Text
  pub subset : Text

-- The zero value of the struct
abbrev pub no_service : Service
no_service = record {
  enterprise_meta = none;
  name = [];
  port = pos 0;
  datacenter = [];
  trust_domain = [];
  subset = [];
}

-- `qname[0]`; `strings.Split` never returns an empty slice.
qualified_name : List Text → Text
qualified_name [] = []
qualified_name (name ∷ _) = name

qualified_meta : List Text → Option EnterpriseMeta
qualified_meta [] = none
qualified_meta (_ ∷ []) = none
qualified_meta (_ ∷ ns ∷ []) = some (record { namespace = ns; partition = default })
qualified_meta (_ ∷ ns ∷ ap ∷ _) = some (record { namespace = ns; partition = ap })

upstream_datacenter : List Text → Text
upstream_datacenter [] = []
upstream_datacenter (dc ∷ _) = dc

pub parse_parts : Text → List Text → Result Service
unfolding qualified_name qualified_meta upstream_datacenter
parse_parts s [] = err (invalid_service_format s)
parse_parts s (_ ∷ []) = err (invalid_service_format s)
parse_parts s (qualified ∷ port_text ∷ rest) = do
  port ← map_error invalid_service_port (atoi port_text)
  let qname = split b'.' qualified
  ok (record no_service {
    name = qualified_name qname;
    port = port;
    enterprise_meta = qualified_meta qname;
    datacenter = upstream_datacenter rest;
  })

-- `ParseUpstream`
unfoldable pub parse_upstream : Text → Result Service
unfolding parse_parts
parse_upstream s = parse_parts s (split b':' s)

unfoldable pub datacenter_or_default : Service → Text
datacenter_or_default s = if s.datacenter == [] then text "dc1" else s.datacenter

meta_namespace : Option EnterpriseMeta → Text
meta_namespace none = default
meta_namespace (some em) = if em.namespace == [] then default else em.namespace

meta_partition : Option EnterpriseMeta → Text
meta_partition none = default
meta_partition (some em) = if em.partition == [] then default else em.partition

unfoldable pub namespace_or_default : Service → Text
unfolding meta_namespace
namespace_or_default s = meta_namespace s.enterprise_meta

unfoldable pub partition_or_default : Service → Text
unfolding meta_partition
partition_or_default s = meta_partition s.enterprise_meta

abbrev pub dot_join : List Text → Text
dot_join = join b'.'

-- `SNI`
unfoldable pub sni : Service → Text
sni s =
    let ns = namespace_or_default s in
    let ap = partition_or_default s in
    let dc = datacenter_or_default s in
    if ap == default
    then if s.subset == []
      then dot_join (s.name ∷ ns ∷ dc ∷ internal ∷ s.trust_domain ∷ [])
      else dot_join (s.subset ∷ s.name ∷ ns ∷ dc ∷ internal ∷ s.trust_domain ∷ [])
    else if s.subset == []
    then dot_join (s.name ∷ ns ∷ ap ∷ dc ∷ internal_version ∷ s.trust_domain ∷ [])
    else dot_join (s.subset ∷ s.name ∷ ns ∷ ap ∷ dc ∷ internal_version ∷ s.trust_domain ∷ [])

-- The path of the SPIFFE ID, before it is escaped
unfoldable pub spiffe_path : Service → Text
spiffe_path s =
    let path =
      text "/ns/"
      ++ (namespace_or_default s
          ++ (text "/dc/" ++ (datacenter_or_default s ++ (text "/svc/" ++ s.name)))) in
    let ap = partition_or_default s in if ap == default then path else text "/ap/" ++ (ap ++ path)

-- `SpiffeID`
unfoldable pub spiffe_id : Service → Text
spiffe_id s = url_string (text "spiffe") s.trust_domain (spiffe_path s)

-- `ExtensionPath`
unfoldable pub extension_path : Service → Text
extension_path s =
    b'/' ∷ (partition_or_default s ++ (b'/' ∷ (namespace_or_default s ++ (b'/' ∷ s.name))))

pub record Peer : Type 0 where
  pub name : Text
  pub trust_domain : Text

-- The slice of peers may be nil, and `reflect.DeepEqual` tells a nil slice from an empty one.
pub record ExtensionData : Type 0 where
  pub private_key_pem : Text
  pub cert_pem : Text
  pub root_cert_pem : Text
  pub trust_domain : Text
  pub peers : Option (List Peer)

pub ext_data_discrete : Discrete ExtensionData
ext_data_discrete = hlevel text_discrete

-- `Equals`, by `reflect.DeepEqual`
instance unfoldable pub ext_data_eq : Eq ExtensionData
unfolding ext_data_discrete
ext_data_eq = record { dec = ext_data_discrete }

unfoldable pub equals : ExtensionData → ExtensionData → Bool
equals x y = x == y
