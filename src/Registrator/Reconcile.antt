-- ===== src/Registrator/Reconcile.antt =====
-- `Reconcile` of upsert_event.go and delete_event.go: the calls that bring Consul and Parameter
-- Store in step with one event. The first call that fails ends them.
use terraform_aws_consul_lam.Prelude.{Text, ◌==◌, text_eq, none, List, [], ◌∷◌, ◌++◌, if◌then◌else◌}
use terraform_aws_consul_lam.Errors.{
  Result, ok, err, root_ca_failed, no_active_root, leaf_cert_failed, marshal_failed,
}
use terraform_aws_consul_lam.Exec.{Exec, pure, lift, wrap, ◌>>=◌, ◌>>◌}
use terraform_aws_consul_lam.Structs.{no_service, extension_path, ExtensionData}
use terraform_aws_consul_lam.Registrator.Config.{Config, is_managing_tls}
use terraform_aws_consul_lam.Registrator.Event.{
  Event, upsert, delete, UpsertEvent, DeleteEvent, write_options, delete_options, registration,
  deregistration, to_consul_service_config_entry,
}
use terraform_aws_consul_lam.Registrator.Platform.{Platform, CaRoot, CaRootList, LeafCert}

-- The first root with the active root's ID
unfoldable pub active_root : Text → List CaRoot → Result CaRoot
active_root id [] = err no_active_root
active_root id (root ∷ roots) =
    let rest = active_root id roots in if root.id == id then ok root else rest

-- The data that the extension is given
unfoldable pub extension_data : CaRootList → CaRoot → LeafCert → ExtensionData
extension_data list root leaf = record {
  private_key_pem = leaf.private_key_pem;
  cert_pem = leaf.cert_pem;
  root_cert_pem = root.root_cert_pem;
  trust_domain = list.trust_domain;
  peers = none;
}

-- The parameter of an upserted service. Its path names the service as `upsertTLSData` rebuilds it.
unfoldable pub upsert_path : Config → UpsertEvent → Text → Text
upsert_path env e trust_domain =
    env.extension_data_prefix
    ++ extension_path (record no_service {
      name = e.service.name;
      datacenter = e.service.datacenter;
      trust_domain = trust_domain;
      enterprise_meta = e.service.enterprise_meta;
    })

-- The parameter of a deleted service, as `deleteTLSData` rebuilds it
unfoldable pub delete_path : Config → DeleteEvent → Text
delete_path env e =
    env.extension_data_prefix
    ++ extension_path (record no_service {
      name = e.service.name;
      datacenter = e.service.datacenter;
      enterprise_meta = e.service.enterprise_meta;
    })

module _ (P : Platform) (env : Config) where
  open P use {
    State, service_defaults, builtin_aws_lambda, register, deregister, set_config, delete_config,
    ca_roots, ca_leaf, store_set, store_delete, marshal,
  }

  unfoldable pub store_service_defaults : UpsertEvent → Exec State Unit
  store_service_defaults e =
      set_config
        (to_consul_service_config_entry service_defaults builtin_aws_lambda e.arguments
          e.service.name)
        (write_options e.service)

  unfoldable pub register_service : UpsertEvent → Exec State Unit
  register_service e = register (registration env.node_name e) (write_options e.service)

  unfoldable pub upsert_tls_data : UpsertEvent → Exec State Unit
  upsert_tls_data e =
      if is_managing_tls env
      then (do
        list ← wrap root_ca_failed ca_roots
        root ← lift (active_root list.active_root_id list.roots)
        leaf ← wrap (leaf_cert_failed e.service.name) (ca_leaf e.service.name)
        value ← wrap marshal_failed (lift (marshal (extension_data list root leaf)))
        store_set (upsert_path env e list.trust_domain) value)
      else pure tt

  -- `UpsertEvent.Reconcile`
  unfoldable pub reconcile_upsert : UpsertEvent → Exec State Unit
  unfolding store_service_defaults register_service upsert_tls_data
  reconcile_upsert e = do store_service_defaults e; register_service e; upsert_tls_data e

  unfoldable pub delete_service_defaults : DeleteEvent → Exec State Unit
  delete_service_defaults e = delete_config service_defaults e.service.name (delete_options e)

  unfoldable pub deregister_service : DeleteEvent → Exec State Unit
  deregister_service e = deregister (deregistration env.node_name e) (delete_options e)

  unfoldable pub delete_tls_data : DeleteEvent → Exec State Unit
  delete_tls_data e = if is_managing_tls env then store_delete (delete_path env e) else pure tt

  -- `DeleteEvent.Reconcile`
  unfoldable pub reconcile_delete : DeleteEvent → Exec State Unit
  unfolding delete_service_defaults deregister_service delete_tls_data
  reconcile_delete e = do delete_service_defaults e; deregister_service e; delete_tls_data e

  -- The method `Reconcile` of the interface `Event`
  unfoldable pub reconcile : Event → Exec State Unit
  unfolding reconcile_upsert reconcile_delete
  reconcile (upsert e) = reconcile_upsert e
  reconcile (delete e) = reconcile_delete e
