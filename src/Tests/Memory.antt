-- ===== src/Tests/Memory.antt =====
-- A platform in memory that behaves as Consul is documented to.
use terraform_aws_consul_lam.Strings.{split, join}
use terraform_aws_consul_lam.Prelude.{
  ℕ, Eq, ◌++◌, text_discrete, Text, text, ◌==◌, text_eq, false, ◌&&◌, Option, none, some, List, [],
  ◌∷◌, if◌then◌else◌,
}
use terraform_aws_consul_lam.Prelude.Int.{pos}
use terraform_aws_consul_lam.Prelude.Dict.{Dict, lookup, insert, erase}
use terraform_aws_consul_lam.Errors.{Result, ok, err, external}
use terraform_aws_consul_lam.Exec.{Exec}
use terraform_aws_consul_lam.Structs.{EnterpriseMeta, em_eq, ExtensionData, ext_data_eq}
use terraform_aws_consul_lam.Registrator.Config.{Config}
use terraform_aws_consul_lam.Registrator.Event.{RequestOptions, CatalogRegistration}
use terraform_aws_consul_lam.Registrator.Trigger.{LambdaFunction}
use terraform_aws_consul_lam.Registrator.Platform.{Platform, CaRoot, CaRootList, LeafCert}
use terraform_aws_consul_lam.Registrator.Convergence.Laws.{
  options_meta, query_meta, Instance, Entries, place,
}

-- Where an instance stands in the catalog
pub record Key : Type 0 where
  pub namespace : Text
  pub partition : Text
  pub node : Text
  pub id : Text

unfoldable pub key_discrete : Discrete Key
unfolding text_discrete
key_discrete = hlevel text_discrete

instance unfoldable pub key_eq : Eq Key
unfolding key_discrete
key_eq = record { dec = key_discrete }

abbrev pub key : EnterpriseMeta → Text → Text → Key
key em node id = record { namespace = em.namespace; partition = em.partition; node = node; id = id }

abbrev pub Catalog : Type 0
Catalog = Dict Key Instance

pub record Memory : Type 0 where
  pub catalog : Catalog
  pub functions : Dict Text LambdaFunction
  pub params : Dict Text Text

abbrev pub sample_config : Config
sample_config = record {
  node_name = text "lambdas";
  datacenter = [];
  is_enterprise = false;
  raw_partitions = [];
  partitions = [];
  log_level = text "info";
  consul_ca_cert_path = [];
  consul_http_token_path = [];
  extension_data_prefix = text "/mesh";
  extension_data_tier = [];
  page_size = pos 50;
}

abbrev pub sample_root : CaRoot
sample_root = record { id = text "7"; root_cert_pem = text "root" }

abbrev pub sample_roots : CaRootList
sample_roots = record {
  active_root_id = text "7";
  trust_domain = text "td";
  roots = sample_root ∷ [];
}

abbrev pub sample_leaf : LeafCert
sample_leaf = record { private_key_pem = text "key"; cert_pem = text "cert" }

-- Behind every ASCII byte
abbrev pub mark : ℕ
mark = 255

-- A codec for data without peers: its texts with a byte between them that is none of theirs
unfoldable pub sample_marshal : ExtensionData → Result Text
unfolding join
sample_marshal d =
    ok (join mark (d.private_key_pem ∷ d.cert_pem ∷ d.root_cert_pem ∷ d.trust_domain ∷ []))

unfoldable pub of_parts : List Text → Result ExtensionData
of_parts (key ∷ cert ∷ root ∷ domain ∷ []) = ok (record {
  private_key_pem = key;
  cert_pem = cert;
  root_cert_pem = root;
  trust_domain = domain;
  peers = none;
})
of_parts _ = err (external [])

unfoldable pub sample_unmarshal : Text → Result ExtensionData
unfolding split of_parts
sample_unmarshal v = of_parts (split mark v)

-- An instance without a name is none.
abbrev pub named_only : Option Instance → Option Instance
named_only none = none
named_only (some x) = if x.service == [] then none else some x

abbrev pub memory_entries : Memory → Entries
memory_entries s em node id = named_only (lookup (key em node id) s.catalog)

-- The tags are added to those of the name.
unfoldable pub merge : Text → List Text → Dict Text (List Text) → Dict Text (List Text)
merge k tags [] = (k, tags) ∷ []
merge k tags ((j, old) ∷ d) =
    let rest = merge k tags d in if k == j then (j, tags ++ old) ∷ d else (j, old) ∷ rest

-- The services of a place, from the instances under the keys
unfoldable pub listing : EnterpriseMeta → Catalog → Catalog → Dict Text (List Text)
unfolding merge
listing em whole [] = []
listing em whole ((k, _) ∷ rows) =
    let rest = listing em whole rows in
    if k.namespace == em.namespace && k.partition == em.partition
    then elim (named_only (lookup k whole)) [ none ↦ rest | some x ↦ merge x.service x.tags rest ]
    else rest

abbrev pub memory_register : CatalogRegistration → RequestOptions → Exec Memory (Unit {0})
memory_register r o s = if r.service == [] then (err (external []), s) else (
  ok tt,
  record s {
    catalog =
        insert (key (place (options_meta o)) r.node r.service_id)
          (record { service = r.service; tags = r.tags }) s.catalog;
  },
)

abbrev or_error : Option Text → Result Text
or_error none = err (external [])
or_error (some v) = ok v

abbrev pub memory_get : Text → Exec Memory Text
memory_get key s = (or_error (lookup key s.params), s)

abbrev pub memory_set : Text → Text → Exec Memory (Unit {0})
memory_set key value s = (ok tt, record s { params = insert key value s.params })

abbrev pub memory : Platform
memory = record {
  State = Memory;
  service_defaults = text "service-defaults";
  builtin_aws_lambda = text "builtin/aws/lambda";
  register = memory_register;
  deregister = λ d o s. (
    ok tt,
    record s { catalog = erase (key (place (options_meta o)) d.node d.service_id) s.catalog },
  );
  services = λ q s. (ok (listing (place (query_meta q)) s.catalog s.catalog), s);
  set_config = λ entry o s. (ok tt, s);
  delete_config = λ kind name o s. (ok tt, s);
  namespaces = λ partition s. (ok (text "default" ∷ []), s);
  ca_roots = λ s. (ok sample_roots, s);
  ca_leaf = λ name s. (ok sample_leaf, s);
  store_get = memory_get;
  store_set = memory_set;
  store_delete = λ key s. (ok tt, record s { params = erase key s.params });
  get_function =
      λ arn s. (elim (lookup arn s.functions) [ none ↦ err (external arn) | some fn ↦ ok fn ], s);
  list_functions = λ s. (ok s.functions, s);
  marshal = sample_marshal;
  Value = Text;
  as_string = λ v. some v;
  decode = λ m. err (external []);
  process_environment = λ s. (ok sample_config, s);
  load_sdk_config = λ s. (ok tt, s);
  set_env = λ key value s. (ok tt, s);
  write_file = λ path value s. (ok tt, s);
  new_client = λ s. (ok tt, s);
}
