-- ===== src/Tests/Structs.antt =====
-- The theorems on upstreams and server names at the names of a small mesh.
use terraform_aws_consul_lam.Prelude.{
  ◌≡◌, ◌≢◌, ◌↔◌, refl, arith, Text, text, Bool, true, false, Option, none, some, List, [], ◌∷◌, All,
}
use terraform_aws_consul_lam.Prelude.Int.{pos}
use terraform_aws_consul_lam.Errors.{ok, is_ok}
use terraform_aws_consul_lam.Strings.{split, join}
use terraform_aws_consul_lam.Strings.Split.{Lacks}
use terraform_aws_consul_lam.Structs.{
  Service, no_service, parse_upstream, sni, default, namespace_or_default, partition_or_default,
  datacenter_or_default,
}
use terraform_aws_consul_lam.Structs.Upstream.{
  upstream_text, Qualifier, in_partition, qualified_parts, parse_upstream-upstream_text,
  parse_upstream_ok, HasPort,
}
use terraform_aws_consul_lam.Structs.{extension_path}
use terraform_aws_consul_lam.Structs.Paths.{IsSlashFree, extension_path-injective}
use terraform_aws_consul_lam.Structs.Sni.{IsDotFree, SameService, sni-injective}

abbrev web_meta : Qualifier
web_meta = in_partition (text "ns") (text "ap")

no_dot : All (Lacks b'.') (qualified_parts (text "web") web_meta)
unfolding text
no_dot = (omega arith, (omega arith, (omega arith, tt)))

no_colon : Lacks b':' (join b'.' (qualified_parts (text "web") web_meta))
unfolding text join
no_colon = omega arith

no_colon_dc : All (Lacks b':') (text "dc2" ∷ [])
unfolding text
no_colon_dc = (omega arith, tt)

parse_upstream-upstream_text_example :
    parse_upstream (upstream_text (text "web") web_meta (pos 1234) (some (text "dc2")))
    ≡ ok (record no_service {
      name = text "web";
      port = pos 1234;
      enterprise_meta = some (record { namespace = text "ns"; partition = text "ap" });
      datacenter = text "dc2";
    })
parse_upstream-upstream_text_example =
    parse_upstream-upstream_text (text "web") web_meta (pos 1234) (some (text "dc2")) (omega arith)
      no_dot no_colon no_colon_dc

parse_upstream_ok_example :
    (is_ok (parse_upstream (text "web:1")) ≡ true) ↔ HasPort (split b':' (text "web:1"))
parse_upstream_ok_example = parse_upstream_ok (text "web:1")

abbrev web : Service
web = record no_service { name = text "web"; trust_domain = text "td.consul" }

web-IsDotFree : IsDotFree web
unfolding namespace_or_default partition_or_default datacenter_or_default text
    terraform_aws_consul_lam.Prelude.text_eq
web-IsDotFree = record {
  no_subset = refl;
  name = omega arith;
  namespace = omega arith;
  partition = omega arith;
  datacenter = omega arith;
  datacenter-ne-internal = λ h. cc;
}

-- The default partition, spelled out
abbrev spelled : Service
spelled = record web {
  enterprise_meta = some (record { namespace = default; partition = default });
}

spelled-IsDotFree : IsDotFree spelled
unfolding namespace_or_default partition_or_default datacenter_or_default text
    terraform_aws_consul_lam.Prelude.text_eq
spelled-IsDotFree = record {
  no_subset = refl;
  name = omega arith;
  namespace = omega arith;
  partition = omega arith;
  datacenter = omega arith;
  datacenter-ne-internal = λ h. cc;
}

same_sni : sni web ≡ sni spelled
unfolding sni partition_or_default namespace_or_default datacenter_or_default
    terraform_aws_consul_lam.Prelude.text_eq text
same_sni = refl

sni-injective_example : SameService web spelled
sni-injective_example = sni-injective web spelled web-IsDotFree spelled-IsDotFree same_sni

web-IsSlashFree : IsSlashFree web
unfolding namespace_or_default partition_or_default datacenter_or_default text
    terraform_aws_consul_lam.Prelude.text_eq
web-IsSlashFree = record {
  name = omega arith;
  namespace = omega arith;
  partition = omega arith;
  datacenter = omega arith;
}

spelled-IsSlashFree : IsSlashFree spelled
unfolding namespace_or_default partition_or_default datacenter_or_default text
    terraform_aws_consul_lam.Prelude.text_eq
spelled-IsSlashFree = record {
  name = omega arith;
  namespace = omega arith;
  partition = omega arith;
  datacenter = omega arith;
}

same_path_of_web : extension_path web ≡ extension_path spelled
unfolding extension_path partition_or_default namespace_or_default
    terraform_aws_consul_lam.Prelude.text_eq text
same_path_of_web = refl

extension_path-injective_example : (extension_path web ≡ extension_path spelled) ↔ (
    (partition_or_default web ≡ partition_or_default spelled)
    × (namespace_or_default web ≡ namespace_or_default spelled)
    × (web.name ≡ spelled.name))
extension_path-injective_example =
    extension_path-injective web spelled web-IsSlashFree spelled-IsSlashFree
