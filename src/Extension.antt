-- ===== src/Extension.antt =====
-- consul-lambda/consul-lambda-extension/extension.go: the extension's view of its service, its
-- upstreams, and the mTLS data that it refreshes. One call of `getExtensionData` is one step here;
-- Extension/DataLock.antt takes it apart.
pub mod Refresh
pub mod Plain
pub mod Handoff
pub mod Withdraw
pub mod LambdaClient
pub mod Dial
pub mod Start
pub mod Main
pub mod DataLock
use terraform_aws_consul_lam.Prelude.{
  Text, Bool, true, false, Option, none, some, List, [], ◌∷◌, ◌++◌, if◌then◌else◌,
}
use mathlib.Core.List.{map}
use terraform_aws_consul_lam.Errors.{
  Error, Result, ok, err, ◌>>=◌, map_error, parse_upstream_failed, get_data_failed,
  unmarshal_failed,
}
use terraform_aws_consul_lam.Exec.{Exec}
use terraform_aws_consul_lam.Structs.{
  Service, no_service, new_enterprise_meta, parse_upstream, extension_path, ExtensionData, equals,
}

-- `Config`, as far as the service and its data go
pub record Config : Type 0 where
  pub service_name : Text
  pub service_namespace : Text
  pub service_partition : Text
  pub service_upstreams : List Text
  pub mesh_gateway_uri : Text
  pub extension_data_prefix : Text

pub record Extension : Type 0 where
  pub config : Config
  pub service : Service
  pub data_held : ExtensionData
  pub data_init : Bool
  pub upstreams : List Service

-- The zero value of the struct
abbrev pub no_data : ExtensionData
no_data = record {
  private_key_pem = [];
  cert_pem = [];
  root_cert_pem = [];
  trust_domain = [];
  peers = none;
}

-- `NewExtension`
unfoldable pub new_extension : Config → Extension
new_extension cfg = record {
  config = cfg;
  service = record no_service {
    name = cfg.service_name;
    enterprise_meta = new_enterprise_meta cfg.service_partition cfg.service_namespace;
  };
  data_held = no_data;
  data_init = false;
  upstreams = [];
}

-- The loop of `parseUpstreams`
unfoldable pub parse_all : List Text → List Service → Result (List Service)
parse_all [] done = ok done
parse_all (s ∷ rest) done = do
  up ← map_error parse_upstream_failed (parse_upstream s)
  parse_all rest (done ++ (up ∷ []))

-- `parseUpstreams`; where it fails the extension does not start.
unfoldable pub parse_upstreams : Extension → Result Extension
unfolding parse_all
parse_upstreams ext = do
  ups ← parse_all ext.config.service_upstreams []
  ok (record ext { upstreams = ups })

-- The parameter that holds the service's data
unfoldable pub data_key : Extension → Text
data_key ext = ext.config.extension_data_prefix ++ extension_path ext.service

abbrev pub set_trust_domain : Text → Service → Service
set_trust_domain td up = record up { trust_domain = td }

-- New data is kept, and its trust domain is given to every upstream.
unfoldable pub update : Extension → ExtensionData → Extension
update ext d = if equals d ext.data_held then ext else record ext {
  data_held = d;
  upstreams = map (set_trust_domain d.trust_domain) ext.upstreams;
}

-- What the loop of `refreshExtensionData` waits for: the context's end, or a tick
pub data Signal : Type 0 where
  cancelled tick : Signal

-- The loop still runs once all signals have come, or it has sent its last message.
pub data Outcome : Type 0 where
  running : Outcome
  stopped : Option Error → Outcome

module _ {S : Type 0} (store_get : Text → Exec S Text)
    (unmarshal : Text → Result ExtensionData) where
  -- What comes of the answer of the store. The deferred function sets `dataInit` on every path.
  use_answer : Extension → Result Text → Result (Unit {0}) × Extension
  use_answer ext (err e) = (err (get_data_failed (data_key ext) e), record ext { data_init = true })
  use_answer ext (ok value) = elim (unmarshal value) [
    | err e ↦ (err (unmarshal_failed (data_key ext) e), record ext { data_init = true })
    | ok d ↦ (ok tt, record (update ext d) { data_init = true })
  ]

  -- `getExtensionData`
  unfoldable pub get_extension_data : Extension → S → (Result (Unit {0}) × Extension) × S
  unfolding use_answer
  get_extension_data ext s =
      (use_answer ext (store_get (data_key ext) s).0, (store_get (data_key ext) s).1)

  -- The loop of `refreshExtensionData`, over the signals that come
  unfoldable pub refresh_loop : List Signal → Extension → S → (Outcome × Extension) × S
  refresh_loop [] ext s = ((running, ext), s)
  refresh_loop (cancelled ∷ _) ext s = ((stopped none, ext), s)
  refresh_loop (tick ∷ signals) ext s =
      let rest = refresh_loop signals (get_extension_data ext s).0.1 (get_extension_data ext s).1 in
      elim (get_extension_data ext s).0.0 [
        | ok _ ↦ rest
        | err e ↦ ((stopped (some e), (get_extension_data ext s).0.1), (get_extension_data ext s).1)
      ]

  -- `refreshExtensionData`: a first fetch, then the loop
  unfoldable pub refresh : List Signal → Extension → S → (Outcome × Extension) × S
  unfolding refresh_loop
  refresh signals ext s = refresh_loop (tick ∷ signals) ext s
