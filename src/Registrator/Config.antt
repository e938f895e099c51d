-- ===== src/Registrator/Config.antt =====
-- The configuration of environment.go.
use terraform_aws_consul_lam.Prelude.{Text, ◌==◌, text_eq, Bool, not, List, [], ◌∷◌}
use terraform_aws_consul_lam.Prelude.Int.{ℤ}
use terraform_aws_consul_lam.Prelude.Dict.{Dict, insert}

-- `Config`; the clients of `Environment` are the platform, a parameter of the code that calls it.
pub record Config : Type 0 where
  pub node_name : Text
  pub datacenter : Text
  pub is_enterprise : Bool
  pub raw_partitions : List Text
  pub partitions : Dict Text (Unit {0})
  pub log_level : Text
  pub consul_ca_cert_path : Text
  pub consul_http_token_path : Text
  pub extension_data_prefix : Text
  pub extension_data_tier : Text
  pub page_size : ℤ

-- The loop of `initPartitions`, over a map that has been made empty.
pub add_partitions : List Text → Dict Text (Unit {0}) → Dict Text (Unit {0})
add_partitions [] m = m
add_partitions (p ∷ ps) m = add_partitions ps (insert p tt m)

-- `initPartitions`
unfoldable pub init_partitions : Config → Config
unfolding add_partitions
init_partitions c = record c { partitions = add_partitions c.raw_partitions [] }

-- `IsManagingTLS`
unfoldable pub is_managing_tls : Config → Bool
is_managing_tls c = not (c.extension_data_prefix == [])
