-- ===== src/Extension/Refresh.antt =====
-- The upstreams always have the trust domain of the data that the extension holds.
use terraform_aws_consul_lam.Prelude.{
  ◌≡◌, refl, Text, true, List, [], ◌∷◌, All, All-append, Bool-cases, inl, inr, subst,
}
use mathlib.Core.List.{map}
use terraform_aws_consul_lam.Errors.{
  Result, ok, err, >>=-eq-ok, map_error, map_error-eq-ok, Result-cases, parse_upstream_failed,
}
use terraform_aws_consul_lam.Exec.{Exec}
use terraform_aws_consul_lam.Structs.{Service, ExtensionData, equals, parse_upstream}
use terraform_aws_consul_lam.Structs.Upstream.{parse_upstream-trust_domain}
use terraform_aws_consul_lam.Extension.{
  Config, Extension, no_data, new_extension, parse_all, parse_upstreams, update, use_answer,
  get_extension_data, data_key, set_trust_domain, refresh_loop, refresh, Signal, cancelled, tick,
}

pub record InStep (ext : Extension) : Type 0 where
  pub same : All (λ up. up.trust_domain ≡ ext.data_held.trust_domain) ext.upstreams

map-trust_domain :
    (td : Text) (ups : List Service)
    → All (λ up. up.trust_domain ≡ td) (map (set_trust_domain td) ups)
map-trust_domain td [] = tt
map-trust_domain td (up ∷ ups) = (refl, map-trust_domain td ups)

update-InStep : (ext : Extension) (d : ExtensionData) → InStep ext → InStep (update ext d)
unfolding update
update-InStep ext d h = elim (Bool-cases (equals d ext.data_held)) [
  | inl same ↦ rw same h
  | inr new ↦ rw new (record { same = map-trust_domain d.trust_domain ext.upstreams })
]

-- A property of the extension that new data and the deferred function of `getExtensionData` keep
module _ {S : Type 0} (store_get : Text → Exec S Text) (unmarshal : Text → Result ExtensionData)
    (Q : Extension → Type 0)
    (init_keeps : (ext : Extension) → Q ext → Q (record ext { data_init = true }))
    (update_keeps : (ext : Extension) (d : ExtensionData) → Q ext → Q (update ext d)) where
  use_answer_keeps :
      (ext : Extension) (r : Result Text) → Q ext → Q (use_answer store_get unmarshal ext r).1
  unfolding use_answer
  use_answer_keeps ext (err e) h = init_keeps ext h
  use_answer_keeps ext (ok value) h = elim (Result-cases (unmarshal value)) [
    | inl (d, e) ↦ rw (e, use_answer) (init_keeps (update ext d) (update_keeps ext d h))
    | inr (x, e) ↦ rw (e, use_answer) (init_keeps ext h)
  ]

  refresh_loop_keeps :
      (signals : List Signal) (ext : Extension) (s : S)
      → Q ext
      → Q (refresh_loop store_get unmarshal signals ext s).0.1
  unfolding refresh_loop get_extension_data
  refresh_loop_keeps [] ext s h = h
  refresh_loop_keeps (cancelled ∷ _) ext s h = h
  refresh_loop_keeps (tick ∷ signals) ext s h =
      let answer = (store_get (data_key ext) s).0 in
      let kept = use_answer_keeps ext answer h in
      elim (Result-cases (use_answer store_get unmarshal ext answer).0) [
        | inl (_, e) ↦ rw (e, refresh_loop) (refresh_loop_keeps signals _ _ kept)
        | inr (x, e) ↦ rw (e, refresh_loop) kept
      ]

  pub refresh_keeps :
      (signals : List Signal) (ext : Extension) (s : S)
      → Q ext
      → Q (refresh store_get unmarshal signals ext s).0.1
  unfolding refresh
  refresh_keeps signals ext s h = refresh_loop_keeps (tick ∷ signals) ext s h

parse_all-trust_domain :
    (texts : List Text) (done ups : List Service)
    → All (λ up. up.trust_domain ≡ []) done
    → parse_all texts done ≡ ok ups
    → All (λ up. up.trust_domain ≡ []) ups
unfolding parse_all
parse_all-trust_domain [] done ups h e =
    let same : done ≡ ups = cc in subst (All (λ up. up.trust_domain ≡ [])) same h
parse_all-trust_domain (s ∷ rest) done ups h e =
    let (up, e', parsed) = >>=-eq-ok _ (map_error parse_upstream_failed (parse_upstream s)) e in
    parse_all-trust_domain rest _ ups
      (All-append _ done _ h (parse_upstream-trust_domain s up (map_error-eq-ok _ _ parsed), tt)) e'

pub parse_upstreams-trust_domain :
    (cfg : Config) (ext : Extension)
    → parse_upstreams (new_extension cfg) ≡ ok ext
    → (ext.data_held ≡ no_data) × All (λ up. up.trust_domain ≡ []) ext.upstreams
unfolding parse_upstreams new_extension
parse_upstreams-trust_domain cfg ext h =
    let (ups, e, parsed) = >>=-eq-ok _ (parse_all cfg.service_upstreams []) h in
    let same : record (new_extension cfg) { upstreams = ups } ≡ ext = cc in
    subst (λ x. (x.data_held ≡ no_data) × All (λ up. up.trust_domain ≡ []) x.upstreams) same
      (refl, parse_all-trust_domain cfg.service_upstreams [] ups tt parsed)

pub parse_upstreams-InStep :
    (cfg : Config) (ext : Extension) → parse_upstreams (new_extension cfg) ≡ ok ext → InStep ext
parse_upstreams-InStep cfg ext h =
    let (held, none_set) = parse_upstreams-trust_domain cfg ext h in
    record { same = rw held none_set }

-- If the upstreams of an extension parse, then from its start on, whatever the store answers and
-- however many ticks have come, every upstream has the trust domain of the data that the
-- extension holds.
pub refresh-InStep :
    {S : Type 0} (store_get : Text → Exec S Text) (unmarshal : Text → Result ExtensionData)
    (cfg : Config) (ext : Extension) (signals : List Signal) (s : S)
    → parse_upstreams (new_extension cfg) ≡ ok ext
    → InStep (refresh store_get unmarshal signals ext s).0.1
refresh-InStep store_get unmarshal cfg ext signals s h =
    refresh_keeps store_get unmarshal InStep (λ e k. record { same = k.same }) update-InStep signals
      ext s (parse_upstreams-InStep cfg ext h)
