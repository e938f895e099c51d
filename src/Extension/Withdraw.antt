-- ===== src/Extension/Withdraw.antt =====
-- A service that the registrator has deleted: the data is gone, and the extension stops.
use terraform_aws_consul_lam.Prelude.{◌≡◌, refl, sym, ap, ◌∙◌, Text, true, some, List}
use terraform_aws_consul_lam.Errors.{Error, Result, ok, err, get_data_failed}
use terraform_aws_consul_lam.Exec.{bind-eq-ok}
use terraform_aws_consul_lam.Structs.{
  ExtensionData, extension_path, namespace_or_default, partition_or_default,
}
use terraform_aws_consul_lam.Registrator.Config.{is_managing_tls}
use terraform_aws_consul_lam.Registrator.Config as RegistratorConfig
use terraform_aws_consul_lam.Registrator.Event.{UpsertEvent, DeleteEvent}
use terraform_aws_consul_lam.Registrator.Platform.{Platform}
use terraform_aws_consul_lam.Registrator.Reconcile.{
  reconcile_delete, delete_service_defaults, deregister_service, delete_tls_data, delete_path,
  upsert_path,
}
use terraform_aws_consul_lam.Extension.{
  Extension, data_key, get_extension_data, use_answer, refresh, refresh_loop, Signal, stopped,
}

-- The data of a service is deleted where it was written, in whatever trust domain that was.
pub delete_path-upsert_path :
    (env : RegistratorConfig.Config) (d : DeleteEvent) (u : UpsertEvent) (td : Text)
    → d.service.name ≡ u.service.name
    → d.service.enterprise_meta ≡ u.service.enterprise_meta
    → delete_path env d ≡ upsert_path env u td
unfolding delete_path upsert_path extension_path namespace_or_default partition_or_default
delete_path-upsert_path env d u td name meta = rw (name, meta) refl

module _ (P : Platform) (unmarshal : Text → Result ExtensionData) (env : RegistratorConfig.Config)
    (deleted : (k : Text) (s : P.State)
      → (P.store_delete k s).0 ≡ ok tt
      → (e : Error) × ((P.store_get k (P.store_delete k s).1).0 ≡ err e)) where
  refresh_missing :
      (ext : Extension) (s : P.State) (e : Error) (signals : List Signal)
      → (P.store_get (data_key ext) s).0 ≡ err e
      → (refresh P.store_get unmarshal signals ext s).0.0
        ≡ stopped (some (get_data_failed (data_key ext) e))
  unfolding refresh get_extension_data use_answer
  refresh_missing ext s e signals missing = rw (missing, refresh_loop) refl

  delete_tls_data-store_delete :
      (e : DeleteEvent) (s : P.State)
      → is_managing_tls env ≡ true
      → delete_tls_data P env e s ≡ P.store_delete (delete_path env e) s
  unfolding delete_tls_data
  delete_tls_data-store_delete e s on = rw on refl

  last_step :
      (d : DeleteEvent) (s : P.State)
      → (reconcile_delete P env d s).0 ≡ ok tt
      → (s' : P.State) × (reconcile_delete P env d s ≡ delete_tls_data P env d s')
  unfolding reconcile_delete
  last_step d s done =
      let (_, _, q) = bind-eq-ok (delete_service_defaults P env d) _ s done in
      let s1 = (delete_service_defaults P env d s).1 in
      let (_, _, q') =
        bind-eq-ok (deregister_service P env d) (λ _. delete_tls_data P env d) s1 (rw q at done) in
      ((deregister_service P env d s1).1, q ∙ q')

  -- Let Parameter Store give an error for what was deleted. Once the registrator, managing TLS, has
  -- deleted the service of an upsert event without an error, an extension that looks where that
  -- event's data was written stops with an error at its first fetch.
  pub reconcile_delete-refresh :
      (d : DeleteEvent) (u : UpsertEvent) (td : Text) (ext : Extension) (s : P.State)
      (signals : List Signal)
      → is_managing_tls env ≡ true
      → d.service.name ≡ u.service.name
      → d.service.enterprise_meta ≡ u.service.enterprise_meta
      → upsert_path env u td ≡ data_key ext
      → (reconcile_delete P env d s).0 ≡ ok tt
      → (e : Error) × ((refresh P.store_get unmarshal signals ext
            (reconcile_delete P env d s).1).0.0
          ≡ stopped (some (get_data_failed (data_key ext) e)))
  reconcile_delete-refresh d u td ext s signals on name meta path done =
      let (s', q) = last_step d s done in
      let r = q ∙ delete_tls_data-store_delete d s' on in
      let same = delete_path-upsert_path env d u td name meta ∙ path in
      let (e, missing) = deleted (delete_path env d) s' (ap (λ x. x.0) (sym r) ∙ done) in
      (e, refresh_missing ext _ e signals (rw (← same) (rw r missing)))
