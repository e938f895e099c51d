-- ===== src/Extension/Handoff.antt =====
-- The registrator and the extension meet in Parameter Store: the one reads what the other wrote.
use terraform_aws_consul_lam.Prelude.{
  ◌≡◌, refl, sym, ap, subst, ◌∙◌, Text, true, Option, ◌++◌, arith, text_eq,
}
use terraform_aws_consul_lam.Errors.{
  Result, ok, map_error-eq-ok, root_ca_failed, marshal_failed, leaf_cert_failed,
}
use terraform_aws_consul_lam.Exec.{Exec, ◌>>=◌, bind-eq-ok, wrap, lift}
use terraform_aws_consul_lam.Structs.{
  EnterpriseMeta, no_service, new_enterprise_meta, extension_path, ExtensionData, equals,
  ext_data_eq, namespace_or_default, partition_or_default,
}
use terraform_aws_consul_lam.Registrator.Config.{is_managing_tls}
use terraform_aws_consul_lam.Registrator.Config as RegistratorConfig
use terraform_aws_consul_lam.Registrator.Event.{UpsertEvent}
use terraform_aws_consul_lam.Registrator.Platform.{Platform, CaRootList, CaRoot, LeafCert}
use terraform_aws_consul_lam.Registrator.Trigger.{
  Tags, tags_meta, get_tag, partition_tag, namespace_tag,
}
use terraform_aws_consul_lam.Registrator.Reconcile.{
  upsert_path, upsert_tls_data, active_root, extension_data,
}
use terraform_aws_consul_lam.Extension.{
  Config, Extension, new_extension, data_key, update, use_answer, get_extension_data,
}
use terraform_aws_consul_lam.Extension.Plain.{
  IsPlain, GivesAscii, active_root-IsAscii, extension_data-IsPlain,
}

path_of : Text → Option EnterpriseMeta → Text
path_of name em = extension_path (record no_service { name = name; enterprise_meta = em })

tags_meta-path_of :
    (env : RegistratorConfig.Config) (tags : Tags) (name : Text) (em : Option EnterpriseMeta)
    → tags_meta env tags ≡ ok em
    → path_of name em
      ≡ path_of name (new_enterprise_meta (get_tag tags partition_tag) (get_tag tags namespace_tag))
unfolding tags_meta path_of extension_path namespace_or_default partition_or_default
    new_enterprise_meta
tags_meta-path_of env tags name em h = ground arith

-- Let the metadata of an upsert event be that of a function's tags, and an extension have the
-- event's service name, the registrator's prefix, and the partition and namespace of the tags.
-- It looks for its data where the registrator writes the event's, with Enterprise or without.
pub upsert_path-data_key :
    (env : RegistratorConfig.Config) (tags : Tags) (e : UpsertEvent) (td : Text) (cfg : Config)
    → tags_meta env tags ≡ ok e.service.enterprise_meta
    → cfg.service_name ≡ e.service.name
    → cfg.service_partition ≡ get_tag tags partition_tag
    → cfg.service_namespace ≡ get_tag tags namespace_tag
    → cfg.extension_data_prefix ≡ env.extension_data_prefix
    → upsert_path env e td ≡ data_key (new_extension cfg)
unfolding upsert_path data_key new_extension
upsert_path-data_key env tags e td cfg h name partition namespace prefix =
    rw (name, partition, namespace, prefix)
      (ap (λ p. env.extension_data_prefix ++ p)
        (unfold path_of extension_path namespace_or_default partition_or_default in
          tags_meta-path_of env tags e.service.name e.service.enterprise_meta h))

update-data_held : (ext : Extension) (d : ExtensionData) → (update ext d).data_held ≡ d
unfolding update equals
update-data_held ext d = ground arith

module _ (P : Platform) (unmarshal : Text → Result ExtensionData) where
  -- The extension has fetched `d`.
  abbrev pub Fetches : Extension → P.State → ExtensionData → Type 0
  Fetches ext s d =
      ((get_extension_data P.store_get unmarshal ext s).0.0 ≡ ok tt)
      × ((get_extension_data P.store_get unmarshal ext s).0.1.data_held ≡ d)

module _ (P : Platform) (unmarshal : Text → Result ExtensionData) (env : RegistratorConfig.Config)
    (codec : (d : ExtensionData) (v : Text) → IsPlain d → P.marshal d ≡ ok v → unmarshal v ≡ ok d)
    (ascii : GivesAscii P)
    (stored : (k v : Text) (s : P.State)
      → (P.store_set k v s).0 ≡ ok tt
      → (P.store_get k (P.store_set k v s).1).0 ≡ ok v) where
  fetch_lem :
      (ext : Extension) (s : P.State) (v : Text) (d : ExtensionData)
      → (P.store_get (data_key ext) s).0 ≡ ok v
      → unmarshal v ≡ ok d
      → Fetches P unmarshal ext s d
  unfolding get_extension_data
  fetch_lem ext s v d found decoded =
      rw (found, use_answer) (rw decoded (refl, update-data_held ext d))

  set-Fetches :
      (ext : Extension) (key v : Text) (d : ExtensionData) (s : P.State)
      → key ≡ data_key ext
      → IsPlain d
      → P.marshal d ≡ ok v
      → (P.store_set key v s).0 ≡ ok tt
      → Fetches P unmarshal ext (P.store_set key v s).1 d
  set-Fetches ext key v d s same plain coded done =
      fetch_lem ext _ v d (rw (← same) (stored key v s done)) (codec d v plain coded)

  -- The last two steps of `upsertTLSData`
  abbrev write : UpsertEvent → CaRootList → CaRoot → LeafCert → Exec P.State (Unit {0})
  write e list root leaf =
      wrap marshal_failed (lift (P.marshal (extension_data list root leaf))) >>= λ value.
      P.store_set (upsert_path env e list.trust_domain) value

  -- The steps behind the retrieval of the root
  abbrev sign : UpsertEvent → CaRootList → CaRoot → Exec P.State (Unit {0})
  sign e list root =
      wrap (leaf_cert_failed e.service.name) (P.ca_leaf e.service.name) >>= write e list root

  write-Fetches :
      (e : UpsertEvent) (ext : Extension) (list : CaRootList) (root : CaRoot) (leaf : LeafCert)
      (s : P.State)
      → ((td : Text) → upsert_path env e td ≡ data_key ext)
      → IsPlain (extension_data list root leaf)
      → (write e list root leaf s).0 ≡ ok tt
      → Fetches P unmarshal ext (write e list root leaf s).1 (extension_data list root leaf)
  write-Fetches e ext list root leaf s path plain done =
      let d = extension_data list root leaf in
      let (v, coded, q) = bind-eq-ok (wrap marshal_failed (lift (P.marshal d))) _ s done in
      subst (λ x. Fetches P unmarshal ext x.1 d) (sym q)
        (set-Fetches ext _ v d s (path list.trust_domain) plain
          (map_error-eq-ok marshal_failed (P.marshal d) coded) (ap (λ x. x.0) (sym q) ∙ done))

  abbrev Written : UpsertEvent → Extension → P.State → Result (Unit {0}) × P.State → Type 0
  Written e ext s end =
      (list : CaRootList) × (root : CaRoot) × (leaf : LeafCert) × ((P.ca_roots s).0 ≡ ok list)
      × (active_root list.active_root_id list.roots ≡ ok root)
      × ((P.ca_leaf e.service.name (P.ca_roots s).1).0 ≡ ok leaf)
      × Fetches P unmarshal ext end.1 (extension_data list root leaf)

  sign-Written :
      (e : UpsertEvent) (ext : Extension) (list : CaRootList) (root : CaRoot) (s : P.State)
      → ((td : Text) → upsert_path env e td ≡ data_key ext)
      → (P.ca_roots s).0 ≡ ok list
      → active_root list.active_root_id list.roots ≡ ok root
      → (sign e list root (P.ca_roots s).1).0 ≡ ok tt
      → Written e ext s (sign e list root (P.ca_roots s).1)
  sign-Written e ext list root s path a b done =
      let s1 = (P.ca_roots s).1 in
      let (leaf, c, q) =
        bind-eq-ok (wrap (leaf_cert_failed e.service.name) (P.ca_leaf e.service.name))
          (write e list root) s1 done in
      let s2 = (P.ca_leaf e.service.name s1).1 in
      let signed = map_error-eq-ok (leaf_cert_failed e.service.name) _ c in
      let (td, roots) = ascii.roots s list a in
      let plain =
        extension_data-IsPlain list root leaf td
          (active_root-IsAscii list.active_root_id list.roots root roots b)
          (ascii.leaf e.service.name s1 leaf signed) in
      (
        list,
        root,
        leaf,
        a,
        b,
        signed,
        subst (λ x. Fetches P unmarshal ext x.1 (extension_data list root leaf)) (sym q)
            (write-Fetches e ext list root leaf s2 path plain (ap (λ x. x.0) (sym q) ∙ done)),
      )

  -- `upsertTLSData` behind its test whether TLS is managed
  abbrev managed : UpsertEvent → Exec P.State (Unit {0})
  managed e = wrap root_ca_failed P.ca_roots >>= λ list.
      lift (active_root list.active_root_id list.roots) >>= sign e list

  upsert_tls_data-managed :
      (e : UpsertEvent) (s : P.State)
      → is_managing_tls env ≡ true
      → upsert_tls_data P env e s ≡ managed e s
  unfolding upsert_tls_data
  upsert_tls_data-managed e s on = rw on refl

  run-Written :
      (e : UpsertEvent) (ext : Extension) (s : P.State)
      → ((td : Text) → upsert_path env e td ≡ data_key ext)
      → (managed e s).0 ≡ ok tt
      → Written e ext s (managed e s)
  run-Written e ext s path done =
      let (list, a, q) =
        bind-eq-ok (wrap root_ca_failed P.ca_roots)
          (λ list. lift (active_root list.active_root_id list.roots) >>= sign e list) s done in
      let s1 = (P.ca_roots s).1 in
      let (root, b, q') =
        bind-eq-ok (lift (active_root list.active_root_id list.roots)) (sign e list) s1
          (ap (λ x. x.0) (sym q) ∙ done) in
      subst (Written e ext s) (sym (q ∙ q')) (
        sign-Written e ext list root s path (map_error-eq-ok root_ca_failed _ a) b
          (ap (λ x. x.0) (sym (q ∙ q')) ∙ done))

  -- Let the codec read back what it writes of data without peers whose texts are ASCII, let Consul
  -- give ASCII texts only, and Parameter Store read back what was set. If TLS is managed and the
  -- registrator has written a service's data without an error, then an extension that looks under
  -- the same path fetches exactly it: the leaf certificate and key of the service, the active root
  -- and the trust domain that Consul gave for it.
  pub upsert_tls_data-Fetches :
      (e : UpsertEvent) (ext : Extension) (s : P.State)
      → is_managing_tls env ≡ true
      → (upsert_tls_data P env e s).0 ≡ ok tt
      → ((td : Text) → upsert_path env e td ≡ data_key ext)
      → (list : CaRootList) × (root : CaRoot) × (leaf : LeafCert) × ((P.ca_roots s).0 ≡ ok list)
        × (active_root list.active_root_id list.roots ≡ ok root)
        × ((P.ca_leaf e.service.name (P.ca_roots s).1).0 ≡ ok leaf)
        × Fetches P unmarshal ext (upsert_tls_data P env e s).1 (extension_data list root leaf)
  upsert_tls_data-Fetches e ext s on done path =
      let q = upsert_tls_data-managed e s on in
      subst (Written e ext s) (sym q) (run-Written e ext s path (ap (λ x. x.0) (sym q) ∙ done))
