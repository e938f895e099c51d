-- ===== src/Extension/Dial/Targets.antt =====
-- What the proxy dials with, whatever has been fetched before.
use terraform_aws_consul_lam.Prelude.{
  ◌≡◌, refl, ap, ◌∙◌, sym, subst, Text, text_eq, text, ◌==◌, List, [], ◌∷◌, All, Bool-cases, inl,
  inr,
}
use mathlib.Core.List.{map}
use terraform_aws_consul_lam.Errors.{Result, ok}
use terraform_aws_consul_lam.Exec.{Exec}
use terraform_aws_consul_lam.Structs.{Service, ExtensionData, equals, sni}
use terraform_aws_consul_lam.Extension.{
  Config, Extension, new_extension, parse_upstreams, update, set_trust_domain, refresh, Signal,
}
use terraform_aws_consul_lam.Extension.Refresh.{refresh_keeps, parse_upstreams-trust_domain}
use terraform_aws_consul_lam.Extension.Dial.{Crypto, TlsConfig, tls_config}

-- The upstreams are those configured, in the trust domain of the data held.
record IsDerived (ups : List Service) (ext : Extension) : Type 0 where
  derived : ext.upstreams ≡ map (set_trust_domain ext.data_held.trust_domain) ups

map_set_again :
    (new old : Text) (ups : List Service)
    → map (set_trust_domain new) (map (set_trust_domain old) ups) ≡ map (set_trust_domain new) ups
map_set_again new old [] = refl
map_set_again new old (up ∷ ups) =
    ap (λ us. set_trust_domain new up ∷ us) (map_set_again new old ups)

map_set_same :
    (td : Text) (ups : List Service)
    → All (λ up. up.trust_domain ≡ td) ups
    → map (set_trust_domain td) ups ≡ ups
map_set_same td [] _ = refl
map_set_same td (up ∷ ups) (e, es) = rw (map_set_same td ups es) (rw (← e) refl)

update-IsDerived :
    (ups : List Service) (ext : Extension) (d : ExtensionData)
    → IsDerived ups ext
    → IsDerived ups (update ext d)
unfolding update
update-IsDerived ups ext d h = elim (Bool-cases (equals d ext.data_held)) [
  | inl same ↦ rw same h
  | inr new ↦ rw new (record {
    derived =
        ap (map (set_trust_domain d.trust_domain)) h.derived ∙ map_set_again d.trust_domain _ ups;
  })
]

start-IsDerived :
    (cfg : Config) (ext : Extension)
    → parse_upstreams (new_extension cfg) ≡ ok ext
    → IsDerived ext.upstreams ext
start-IsDerived cfg ext h =
    let (held, none_set) = parse_upstreams-trust_domain cfg ext h in
    record { derived = rw held (sym (map_set_same [] ext.upstreams none_set)) }

module _ (lib : Crypto) (pre_release : Text) (ext : Extension) (pair : lib.KeyPair) where
  abbrev expected : Service → Result (TlsConfig lib)
  expected up = ok (record {
    root_cas = lib.pool_of ext.data_held.root_cert_pem;
    certificate = pair;
    server_name = sni (set_trust_domain ext.data_held.trust_domain up);
    insecure_skip_verify = pre_release == text "dev";
  })

  map-tls_config :
      (ups : List Service)
      → lib.x509_key_pair ext.data_held.cert_pem ext.data_held.private_key_pem ≡ ok pair
      → map (tls_config lib pre_release ext) (map (set_trust_domain ext.data_held.trust_domain) ups)
        ≡ map expected ups
  unfolding tls_config
  map-tls_config [] h = refl
  map-tls_config (up ∷ ups) h = rw h (ap (λ cs. expected up ∷ cs) (map-tls_config ups h))

-- If the upstreams of an extension parse, then after any refreshes, whatever the store answered, the
-- proxy dials with these configurations, provided that the key pair of the data held is a valid one:
-- for each configured upstream, the root and the key pair of the data held, and the server name of
-- the upstream in the trust domain of the same data.
pub refresh-tls_config :
    (lib : Crypto) (pre_release : Text) {S : Type 0} (store_get : Text → Exec S Text)
    (unmarshal : Text → Result ExtensionData) (cfg : Config) (ext after : Extension)
    (signals : List Signal) (s : S) (pair : lib.KeyPair)
    → parse_upstreams (new_extension cfg) ≡ ok ext
    → (refresh store_get unmarshal signals ext s).0.1 ≡ after
    → lib.x509_key_pair after.data_held.cert_pem after.data_held.private_key_pem ≡ ok pair
    → map (tls_config lib pre_release after) after.upstreams
      ≡ map
          (λ up. ok (record {
            root_cas = lib.pool_of after.data_held.root_cert_pem;
            certificate = pair;
            server_name = sni (set_trust_domain after.data_held.trust_domain up);
            insecure_skip_verify = pre_release == text "dev";
          }))
          ext.upstreams
refresh-tls_config lib pre_release store_get unmarshal cfg ext after signals s pair parsed reached
      valid =
    let kept =
      refresh_keeps store_get unmarshal (IsDerived ext.upstreams)
        (λ e h. record { derived = h.derived }) (update-IsDerived ext.upstreams) signals ext s
        (start-IsDerived cfg ext parsed) in
    let now : IsDerived ext.upstreams after = subst (IsDerived ext.upstreams) reached kept in
    ap (map (tls_config lib pre_release after)) now.derived
    ∙ map-tls_config lib pre_release after pair ext.upstreams valid
