-- ===== src/Structs/ExtensionPath.antt =====
-- The path of a service's parameter: both programs compute the same one.
use terraform_aws_consul_lam.Prelude.{◌≡◌, text_eq, none, arith}
use terraform_aws_consul_lam.Structs.{
  Service, default, new_enterprise_meta, extension_path, namespace_or_default, partition_or_default,
}

-- Only the name and the metadata matter, and no metadata is the same as the default one.
pub extension_path-default :
    (s : Service)
    → extension_path (record s { enterprise_meta = none })
      ≡ extension_path (record s { enterprise_meta = new_enterprise_meta default default })
unfolding extension_path namespace_or_default partition_or_default new_enterprise_meta
extension_path-default s = ground arith
