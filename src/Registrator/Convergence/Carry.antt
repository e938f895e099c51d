-- ===== src/Registrator/Convergence/Carry.antt =====
-- Carrying out events one after the other changes the catalog as the plan says.
use terraform_aws_consul_lam.Prelude.{
  ◌≡◌, ◌≢◌, refl, sym, ap, subst, ◌∙◌, Text, ◌==◌, text_eq, Bool, true, ◌&&◌, none, some, List, [],
  ◌∷◌, All, if◌then◌else◌, arith, Bool-cases, inl, inr,
}
use terraform_aws_consul_lam.Errors.{Error, Result, ok, err, append_error, Result-cases}
use terraform_aws_consul_lam.Exec.{Exec, ◌>>=◌, continue, lift, wrap, bind-eq-ok}
use terraform_aws_consul_lam.Structs.{EnterpriseMeta, em_eq, Service}
use terraform_aws_consul_lam.Registrator.Config.{Config, is_managing_tls}
use terraform_aws_consul_lam.Registrator.Event.{
  Event, upsert, delete, UpsertEvent, DeleteEvent, service_of, write_options, delete_options,
  registration, deregistration, managed_lambda_tag,
}
use terraform_aws_consul_lam.Registrator.Platform.{Platform}
use terraform_aws_consul_lam.Registrator.Sync.{has_tag, meta_key}
use terraform_aws_consul_lam.Registrator.Sync.View.{is_upsert, event_meta, event_name, after}
use terraform_aws_consul_lam.Registrator.Reconcile.{
  reconcile, upsert_tls_data, delete_tls_data, store_service_defaults, register_service,
  delete_service_defaults, deregister_service,
}
use terraform_aws_consul_lam.Registrator.Handler.{process}
use terraform_aws_consul_lam.Registrator.Convergence.Laws.{
  IsLocal, Keeps, IsConsul, options_meta, Entries, place,
}
use terraform_aws_consul_lam.Registrator.Convergence.Own.{
  Scans, registered, is_tagged, register-registered, deregister-registered,
}

module _ {S A : Type 0} {view : S → Entries} where
  pub lift-Keeps : (r : Result A) → Keeps view (lift r)
  lift-Keeps r = record { at = λ s em node id. refl }

  pub wrap-Keeps : (f : Error → Error) (m : Exec S A) → Keeps view m → Keeps view (wrap f m)
  wrap-Keeps f m k = record { at = k.at }

module _ {S A B : Type 0} {view : S → Entries} where
  continue-Keeps :
      (r : Result A) (f : A → Exec S B) → ((a : A) → Keeps view (f a)) → Keeps view (continue r f)
  continue-Keeps (ok a) f h = h a
  continue-Keeps (err e) f h = record { at = λ s em node id. refl }

  pub bind-Keeps :
      (m : Exec S A) (f : A → Exec S B)
      → Keeps view m
      → ((a : A) → Keeps view (f a))
      → Keeps view (m >>= f)
  bind-Keeps m f k h = record {
    at = λ s em node id. (continue-Keeps (m s).0 f h).at (m s).1 em node id ∙ k.at s em node id;
  }

write_options_lem :
    (s : Service)
    → ((write_options s).datacenter ≡ s.datacenter)
      × (options_meta (write_options s) ≡ meta_key s.enterprise_meta)
unfolding write_options meta_key
write_options_lem s = ground arith

delete_options_lem :
    (e : DeleteEvent)
    → ((delete_options e).datacenter ≡ e.service.datacenter)
      × (options_meta (delete_options e) ≡ meta_key e.service.enterprise_meta)
unfolding delete_options meta_key
delete_options_lem e = ground arith

has_tag_managed : has_tag (managed_lambda_tag ∷ []) ≡ true
unfolding has_tag
has_tag_managed = ground arith

-- The event has a name, and concerns the local datacenter and metadata that is scanned.
pub record IsLocalEvent (env : Config) (local : Text) (e : Event) : Type 0 where
  pub datacenter : IsLocal local (service_of e).datacenter
  pub scanned : Scans env (event_meta e)
  pub named : event_name e ≢ []

module _ (P : Platform) (env : Config) (local : Text) (L : IsConsul P local) where
  open L use {entries}

  abbrev pub view : P.State → EnterpriseMeta → Text → Bool
  view = registered P env local L

  pub kept :
      {A : Type 0} (m : Exec P.State A)
      → Keeps entries m
      → (s : P.State) (em : EnterpriseMeta) (name : Text) → view (m s).1 em name ≡ view s em name
  kept m k s em name = ap (is_tagged name) (k.at s (place em) env.node_name name)

  upsert_tls_data-Keeps : (e : UpsertEvent) → Keeps entries (upsert_tls_data P env e)
  unfolding upsert_tls_data
  upsert_tls_data-Keeps e = elim (Bool-cases (is_managing_tls env)) [
    | inr off ↦ rw off (lift-Keeps (ok tt))
    | inl on ↦ rw on (
        bind-Keeps _ _ (wrap-Keeps _ _ L.ca_roots_keeps) λ list.
          bind-Keeps _ _ (lift-Keeps _) λ root.
            bind-Keeps _ _ (wrap-Keeps _ _ (L.ca_leaf_keeps e.service.name)) λ leaf.
              bind-Keeps _ _ (wrap-Keeps _ _ (lift-Keeps _)) λ value. L.store_set_keeps _ value)
  ]

  delete_tls_data-Keeps : (e : DeleteEvent) → Keeps entries (delete_tls_data P env e)
  unfolding delete_tls_data
  delete_tls_data-Keeps e = elim (Bool-cases (is_managing_tls env)) [
    | inr off ↦ rw off (lift-Keeps (ok tt))
    | inl on ↦ rw on (L.store_delete_keeps _)
  ]

  -- What one event makes of the catalog, if it is carried out to the end
  abbrev Effect : Event → P.State → Type 0
  Effect e s =
      (em : EnterpriseMeta) (name : Text)
      → Scans env em
      → view (reconcile P env e s).1 em name
        ≡ (if em == event_meta e && name == event_name e then is_upsert e else view s em name)

  reconcile-upsert-Effect :
      (e : UpsertEvent) (s : P.State)
      → IsLocalEvent env local (upsert e)
      → (reconcile P env (upsert e) s).0 ≡ ok tt
      → Effect (upsert e) s
  unfolding reconcile store_service_defaults register_service registration
  reconcile-upsert-Effect e s h done em name scans =
      let (_, _, q) = bind-eq-ok (store_service_defaults P env e) _ s done in
      let s1 = (store_service_defaults P env e s).1 in
      let (_, registered_ok, q') =
        bind-eq-ok (register_service P env e) (λ _. upsert_tls_data P env e) s1 (rw q at done) in
      let (same_dc, same_meta) = write_options_lem e.service in
      ap (λ r. view r.1 em name) (q ∙ q')
      ∙ kept (upsert_tls_data P env e) (upsert_tls_data-Keeps e) (register_service P env e s1).1 em
          name
      ∙ register-registered P env local L (registration env.node_name e) (write_options e.service)
          s1 em name refl refl h.named (rw same_dc h.datacenter)
          (subst (Scans env) (sym same_meta) h.scanned) scans registered_ok
      ∙ rw (
        same_meta,
        has_tag_managed,
        kept (store_service_defaults P env e) (L.set_config_keeps _ _) s em name,
      )

  reconcile-delete-Effect :
      (e : DeleteEvent) (s : P.State)
      → IsLocalEvent env local (delete e)
      → (reconcile P env (delete e) s).0 ≡ ok tt
      → Effect (delete e) s
  unfolding reconcile delete_service_defaults deregister_service deregistration
  reconcile-delete-Effect e s h done em name scans =
      let (_, _, q) = bind-eq-ok (delete_service_defaults P env e) _ s done in
      let s1 = (delete_service_defaults P env e s).1 in
      let (_, gone, q') =
        bind-eq-ok (deregister_service P env e) (λ _. delete_tls_data P env e) s1 (rw q at done) in
      let (same_dc, same_meta) = delete_options_lem e in
      ap (λ r. view r.1 em name) (q ∙ q')
      ∙ kept (delete_tls_data P env e) (delete_tls_data-Keeps e) (deregister_service P env e s1).1
          em name
      ∙ deregister-registered P env local L (deregistration env.node_name e) (delete_options e) s1
          em name refl h.named (rw same_dc h.datacenter)
          (subst (Scans env) (sym same_meta) h.scanned) scans gone
      ∙ rw (
        same_meta,
        kept (delete_service_defaults P env e) (L.delete_config_keeps _ _ _) s em name,
      )

  reconcile-Effect :
      (e : Event) (s : P.State)
      → IsLocalEvent env local e
      → (reconcile P env e s).0 ≡ ok tt
      → Effect e s
  reconcile-Effect (upsert e) s = reconcile-upsert-Effect e s
  reconcile-Effect (delete e) s = reconcile-delete-Effect e s

  process_after_error :
      (es : List Event) (errs : Error) (s : P.State) → (process P env es (some errs) s).0 ≢ none
  unfolding process append_error
  process_after_error [] errs s = λ h. cc
  process_after_error (e ∷ es) errs s = elim (Result-cases (reconcile P env e s).0) [
    | inl (_, fine) ↦ rw (fine, process) (process_after_error es errs (reconcile P env e s).1)
    | inr (x, bad) ↦ rw (bad, process) (process_after_error es _ (reconcile P env e s).1)
  ]

  -- Let Consul behave as `IsConsul` says, and every event have a name and concern the local
  -- datacenter and metadata that is scanned. If all events are carried out without an error, they
  -- change what the registrator has in the catalog one after the other, in their order.
  pub view-process :
      (es : List Event) (s : P.State)
      → All (IsLocalEvent env local) es
      → (process P env es none s).0 ≡ none
      → (em : EnterpriseMeta) (name : Text) → Scans env em
      → view (process P env es none s).1 em name ≡ after em name (view s em name) es
  unfolding process after append_error
  view-process [] s _ _ em name _ = refl
  view-process (e ∷ es) s (h, hs) done em name scans = elim (Result-cases (reconcile P env e s).0) [
    | inl (_, fine) ↦
        let s' = (reconcile P env e s).1 in
        rw (fine, process)
          (view-process es s' hs (rw (fine, process) at done) em name scans
            ∙ ap (λ b. after em name b es) (reconcile-Effect e s h fine em name scans))
    | inr (x, bad) ↦
        absurd (process_after_error es _ (reconcile P env e s).1 (rw (bad, process) at done))
  ]
