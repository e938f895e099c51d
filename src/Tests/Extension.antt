-- ===== src/Tests/Extension.antt =====
-- The registrator writes the data of a service, and the extension of that service reads it.
use terraform_aws_consul_lam.Prelude.{
  ◌≡◌, ◌≢◌, refl, sym, ap, ◌∙◌, arith, Text, text, text_eq, Bool, true, false, Option, none, some,
  List, [], ◌∷◌, All, subst, inl, inr, Bool-cases,
}
use terraform_aws_consul_lam.Prelude.Int.{pos}
use terraform_aws_consul_lam.Prelude.Dict.{lookup-insert, lookup-erase}
use terraform_aws_consul_lam.Errors.{Error, ok, err, external, get_data_failed}
use terraform_aws_consul_lam.Structs.{
  EnterpriseMeta, Service, no_service, ExtensionData, new_enterprise_meta,
}
use terraform_aws_consul_lam.Registrator.Config as RegistratorConfig
use terraform_aws_consul_lam.Registrator.Config.{is_managing_tls}
use terraform_aws_consul_lam.Registrator.Event.{UpsertEvent}
use terraform_aws_consul_lam.Registrator.Platform.{CaRootList, CaRoot, LeafCert}
use terraform_aws_consul_lam.Registrator.Trigger.{
  Tags, tags_meta, get_tag, partition_tag, namespace_tag, synchronous,
}
use terraform_aws_consul_lam.Registrator.Reconcile.{
  upsert_path, upsert_tls_data, active_root, extension_data,
}
use terraform_aws_consul_lam.Extension.{
  Config, Extension, new_extension, data_key, tick, refresh, parse_upstreams,
}
use terraform_aws_consul_lam.Extension.{stopped}
use terraform_aws_consul_lam.Registrator.Event.{DeleteEvent}
use terraform_aws_consul_lam.Registrator.Reconcile.{reconcile_delete}
use terraform_aws_consul_lam.Extension.Withdraw.{reconcile_delete-refresh}
use terraform_aws_consul_lam.Extension.Plain.{IsAscii, IsPlain, GivesAscii}
use terraform_aws_consul_lam.Extension.Handoff.{
  upsert_path-data_key, upsert_tls_data-Fetches, Fetches,
}
use terraform_aws_consul_lam.Tests.Memory.{
  Memory, memory, sample_config, sample_marshal, sample_unmarshal, memory_get, memory_set, mark,
  of_parts, sample_roots, sample_leaf,
}
use terraform_aws_consul_lam.Strings.{join, split}
use terraform_aws_consul_lam.Strings.Split.{Lacks, split-join}
use terraform_aws_consul_lam.Tests.Pass.{stale}

abbrev enterprise : RegistratorConfig.Config
enterprise = record sample_config { is_enterprise = true; partitions = (text "ap", tt) ∷ [] }

abbrev tags : Tags
tags = (partition_tag, text "ap") ∷ []

abbrev upserted : UpsertEvent
upserted = record {
  service = record no_service {
    name = text "f";
    enterprise_meta = new_enterprise_meta (text "ap") [];
  };
  arguments = record {
    payload_passthrough = false;
    arn = text "arn:f";
    invocation_mode = synchronous;
  };
}

abbrev pub extension_config : Config
extension_config = record {
  service_name = text "f";
  service_namespace = [];
  service_partition = text "ap";
  service_upstreams = text "web:1234" ∷ [];
  mesh_gateway_uri = text "gateway:8443";
  extension_data_prefix = text "/mesh";
}

sample_meta : tags_meta enterprise tags ≡ ok (new_enterprise_meta (text "ap") [])
unfolding tags_meta new_enterprise_meta text_eq get_tag terraform_aws_consul_lam.Prelude.Dict.lookup
    text
sample_meta = refl

tag_partition : text "ap" ≡ get_tag tags partition_tag
unfolding get_tag terraform_aws_consul_lam.Prelude.Dict.lookup text text_eq
tag_partition = refl

tag_namespace : [] ≡ get_tag tags namespace_tag
unfolding get_tag terraform_aws_consul_lam.Prelude.Dict.lookup text_eq text
tag_namespace = refl

upsert_path-data_key_example :
    upsert_path enterprise upserted (text "td") ≡ data_key (new_extension extension_config)
upsert_path-data_key_example =
    upsert_path-data_key enterprise tags upserted (text "td") extension_config sample_meta refl
      tag_partition tag_namespace refl

IsAscii-Lacks : (t : Text) → IsAscii t → Lacks mark t
IsAscii-Lacks [] h = tt
IsAscii-Lacks (c ∷ t) (h, hs) = (omega (arith, h), IsAscii-Lacks t hs)

plain_parts : ExtensionData → List Text
plain_parts d = d.private_key_pem ∷ d.cert_pem ∷ d.root_cert_pem ∷ d.trust_domain ∷ []

plain_parts-Lacks : (d : ExtensionData) → IsPlain d → All (Lacks mark) (plain_parts d)
unfolding plain_parts
plain_parts-Lacks d p = (
  IsAscii-Lacks _ p.private_key,
  (IsAscii-Lacks _ p.cert, (IsAscii-Lacks _ p.root_cert, (IsAscii-Lacks _ p.trust_domain, tt))),
)

sample_codec :
    (d : ExtensionData) (v : Text) → IsPlain d → sample_marshal d ≡ ok v → sample_unmarshal v ≡ ok d
unfolding sample_marshal sample_unmarshal plain_parts of_parts
sample_codec d v p h =
    let e : join mark (plain_parts d) ≡ v = cc in
    rw (← e, split-join mark (plain_parts d) (λ k. cc) (plain_parts-Lacks d p))
      (rw (← p.peers) refl)

memory-GivesAscii : GivesAscii memory
unfolding text
memory-GivesAscii = record {
  roots = λ s list h.
      let e : sample_roots ≡ list = cc in
      subst (λ l. IsAscii l.trust_domain × All (λ root. IsAscii root.root_cert_pem) l.roots) e
        (omega arith, (omega arith, tt));
  leaf = λ name s leaf h.
      let e : sample_leaf ≡ leaf = cc in
      subst (λ l. IsAscii l.private_key_pem × IsAscii l.cert_pem) e (omega arith, omega arith);
}

memory_stored :
    (k v : Text) (s : Memory)
    → (memory_set k v s).0 ≡ ok tt
    → (memory_get k (memory_set k v s).1).0 ≡ ok v
memory_stored k v s _ = ground (arith, lookup-insert k k v s.params)

managed : is_managing_tls sample_config ≡ true
unfolding is_managing_tls text_eq text
managed = refl

written : (upsert_tls_data memory enterprise upserted stale).0 ≡ ok tt
unfolding upsert_tls_data is_managing_tls text_eq text active_root sample_marshal join
    extension_data
written = refl

-- Enterprise or not, the extension fetches what was written.
upsert_tls_data-Fetches_example :
    (list : CaRootList) × (root : CaRoot) × (leaf : LeafCert) × ((memory.ca_roots stale).0
      ≡ ok list)
    × (active_root list.active_root_id list.roots ≡ ok root)
    × ((memory.ca_leaf (text "f") (memory.ca_roots stale).1).0 ≡ ok leaf)
    × Fetches memory sample_unmarshal
        (new_extension extension_config)
        (upsert_tls_data memory enterprise upserted stale).1
        (extension_data list root leaf)
unfolding is_managing_tls
upsert_tls_data-Fetches_example =
    upsert_tls_data-Fetches memory sample_unmarshal enterprise sample_codec memory-GivesAscii
      memory_stored upserted (new_extension extension_config) stale managed written
      (λ td.
        upsert_path-data_key enterprise tags upserted td extension_config sample_meta refl
          tag_partition tag_namespace refl)

abbrev pub started : Extension
started = record (new_extension extension_config) {
  upstreams = record no_service { name = text "web"; port = pos 1234 } ∷ [];
}

pub started_lem : parse_upstreams (new_extension extension_config) ≡ ok started
unfolding parse_upstreams new_extension terraform_aws_consul_lam.Structs.parse_upstream
    terraform_aws_consul_lam.Strings.split text terraform_aws_consul_lam.Strings.atoi
started_lem = refl

abbrev pub handed_over : Memory
handed_over = (upsert_tls_data memory enterprise upserted stale).1

memory_deleted :
    (k : Text) (s : Memory)
    → (memory.store_delete k s).0 ≡ ok tt
    → (e : Error) × ((memory_get k (memory.store_delete k s).1).0 ≡ err e)
memory_deleted k s _ = (external [], ground (arith, lookup-erase k k s.params))

abbrev deletion : DeleteEvent
deletion = record { service = upserted.service }

removed : (reconcile_delete memory enterprise deletion handed_over).0 ≡ ok tt
unfolding reconcile_delete is_managing_tls text_eq text
removed = refl

enterprise_managed : is_managing_tls enterprise ≡ true
unfolding is_managing_tls text_eq text
enterprise_managed = refl

same_path : upsert_path enterprise upserted (text "td") ≡ data_key (new_extension extension_config)
same_path =
    upsert_path-data_key enterprise tags upserted (text "td") extension_config sample_meta refl
      tag_partition tag_namespace refl

reconcile_delete-refresh_example :
    (e : Error) × ((refresh memory_get sample_unmarshal
        (tick ∷ [])
        (new_extension extension_config)
        (reconcile_delete memory enterprise deletion handed_over).1).0.0
      ≡ stopped (some (get_data_failed (data_key (new_extension extension_config)) e)))
reconcile_delete-refresh_example =
    reconcile_delete-refresh memory sample_unmarshal enterprise memory_deleted deletion upserted
      (text "td") (new_extension extension_config) handed_over (tick ∷ []) enterprise_managed refl
      refl same_path removed
