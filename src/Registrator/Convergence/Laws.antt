-- ===== src/Registrator/Convergence/Laws.antt =====
-- What the convergence of a full pass relies on, of Consul as its API documents it: the catalog holds
-- instances of services, each under its node and its ID, in a partition and namespace.
use terraform_aws_consul_lam.Prelude.{
  ◌≡◌, ◌≢◌, ◌↔◌, All, Text, ◌==◌, text_eq, Bool, true, false, ◌&&◌, ◌||◌, ◌⊎◌, Option, none, some,
  List, [], ◌∷◌, if◌then◌else◌,
}
use terraform_aws_consul_lam.Prelude.Dict.{Dict}
use terraform_aws_consul_lam.Errors.{ok}
use terraform_aws_consul_lam.Exec.{Exec}
use terraform_aws_consul_lam.Structs.{EnterpriseMeta, em_eq, default}
use terraform_aws_consul_lam.Registrator.Event.{
  RequestOptions, ServiceConfigEntry, CatalogRegistration, CatalogDeregistration,
}
use terraform_aws_consul_lam.Registrator.Platform.{Platform}
use terraform_aws_consul_lam.Registrator.Sync.{has_tag}

abbrev pub IsLocal : Text → Text → Type 0
IsLocal local dc = (dc ≡ []) ⊎ (dc ≡ local)

abbrev pub options_meta : RequestOptions → EnterpriseMeta
options_meta o = record { namespace = o.namespace; partition = o.partition }

-- Where a query without options goes
abbrev pub query_meta : Option RequestOptions → EnterpriseMeta
query_meta none = record { namespace = []; partition = [] }
query_meta (some o) = options_meta o

abbrev pub query_datacenter : Option RequestOptions → Text
query_datacenter none = []
query_datacenter (some o) = o.datacenter

-- An instance in the catalog
pub record Instance : Type 0 where
  pub service : Text
  pub tags : List Text

-- A request that names no namespace or no partition is about the default one.
unfoldable pub place : EnterpriseMeta → EnterpriseMeta
place em = record {
  namespace = if em.namespace == [] then default else em.namespace;
  partition = if em.partition == [] then default else em.partition;
}

-- The instances by place, node and ID
abbrev pub Entries : Type 0
Entries = EnterpriseMeta → Text → Text → Option Instance

-- Some instance of the service carries the registrator's tag, on whatever node.
abbrev pub Tagged : Entries → EnterpriseMeta → Text → Type 0
Tagged entries em name =
    (node id : Text) × (x : Instance) × (entries em node id ≡ some x)
    × (x.service ≡ name)
    × (has_tag x.tags ≡ true)

-- The answer of the catalog has the tag among the tags of the name.
unfoldable pub lists_tag : Text → Dict Text (List Text) → Bool
lists_tag name [] = false
lists_tag name ((k, tags) ∷ d) = (name == k && has_tag tags) || lists_tag name d

-- The call leaves the catalog as it was, whether it succeeds or not.
pub record Keeps {S A : Type 0} (entries : S → Entries) (m : Exec S A) : Type 0 where
  pub at :
      (s : S) (em : EnterpriseMeta) (node id : Text)
      → entries (m s).1 em node id ≡ entries s em node id

pub record IsConsul (P : Platform) (local : Text) : Type 0 where
  pub entries : P.State → Entries
  -- A service has a name.
  pub entries_named :
      (s : P.State) (em : EnterpriseMeta) (node id : Text) (x : Instance)
      → entries s em node id ≡ some x
      → x.service ≢ []
  -- The services of a place are listed with the tags of all their instances, on all nodes.
  pub services-Tagged :
      (q : Option RequestOptions) (name : Text) (s : P.State) (catalog : Dict Text (List Text))
      → IsLocal local (query_datacenter q)
      → (P.services q s).0 ≡ ok catalog
      → (lists_tag name catalog ≡ true) ↔ Tagged (entries s) (place (query_meta q)) name
  -- A registration that succeeds puts the instance under its node and its ID.
  pub register-entries :
      (r : CatalogRegistration) (o : RequestOptions) (s : P.State) (em : EnterpriseMeta)
      (node id : Text)
      → IsLocal local o.datacenter
      → r.service_id ≢ []
      → (P.register r o s).0 ≡ ok tt
      → entries (P.register r o s).1 em node id ≡ (
          if em == place (options_meta o) && node == r.node && id == r.service_id
          then some (record { service = r.service; tags = r.tags })
          else entries s em node id)
  -- A deregistration with an ID that succeeds removes the instance under its node and its ID.
  pub deregister-entries :
      (d : CatalogDeregistration) (o : RequestOptions) (s : P.State) (em : EnterpriseMeta)
      (node id : Text)
      → IsLocal local o.datacenter
      → d.service_id ≢ []
      → (P.deregister d o s).0 ≡ ok tt
      → entries (P.deregister d o s).1 em node id ≡ (
          if em == place (options_meta o) && node == d.node && id == d.service_id
          then none
          else entries s em node id)
  -- A namespace has a name.
  pub namespaces_named :
      (partition : Text) (s : P.State) (names : List Text)
      → (P.namespaces partition s).0 ≡ ok names
      → All (λ n. n ≢ []) names
  -- No other call touches the catalog.
  pub services_keep : (q : Option RequestOptions) → Keeps entries (P.services q)
  pub set_config_keeps :
      (entry : ServiceConfigEntry) (o : RequestOptions) → Keeps entries (P.set_config entry o)
  pub delete_config_keeps :
      (kind name : Text) (o : RequestOptions) → Keeps entries (P.delete_config kind name o)
  pub namespaces_keep : (partition : Text) → Keeps entries (P.namespaces partition)
  pub ca_roots_keeps : Keeps entries P.ca_roots
  pub ca_leaf_keeps : (name : Text) → Keeps entries (P.ca_leaf name)
  pub store_set_keeps : (key value : Text) → Keeps entries (P.store_set key value)
  pub store_delete_keeps : (key : Text) → Keeps entries (P.store_delete key)
  pub list_functions_keeps : Keeps entries P.list_functions
