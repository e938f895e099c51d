-- ===== src/Tests/DataLock.antt =====
-- A dial after the first fetch.
use terraform_aws_consul_lam.Prelude.{
  ℕ, ◌≡◌, refl, Text, text, Bool, true, false, Option, none, some, List, [], ◌∷◌,
}
use terraform_aws_consul_lam.Errors.{ok}
use terraform_aws_consul_lam.Structs.{ExtensionData, equals}
use terraform_aws_consul_lam.Extension.{no_data}
use terraform_aws_consul_lam.Extension.Refresh.{InStep}
use terraform_aws_consul_lam.Extension.DataLock.{
  advance, System, advances, locks_first, unlocks, dials, init, Reach, here, later,
}
use terraform_aws_consul_lam.Extension.DataLock.Consistent.{dialing-InStep}
use terraform_aws_consul_lam.Tests.Extension.{extension_config, started, started_lem}

record Run : Type 0 where
  last : System
  reach : Reach (init started) last

abbrev fetched : ExtensionData
fetched = record no_data { trust_domain = text "td" }

-- The fetch stores its data and gives the trust domain to the one upstream; then a dial starts.
abbrev dialled : Run
unfolding advance equals text terraform_aws_consul_lam.Extension.new_extension
    terraform_aws_consul_lam.Structs.ext_data_eq terraform_aws_consul_lam.Prelude.text_discrete
dialled = record {
  last = _;
  reach =
      later
        (later
          (later
            (later
              (later
                (later
                  (later
                    (later (later here (advances (ok fetched) refl))
                      (locks_first refl refl (λ i. refl)))
                    (advances (ok fetched) refl))
                  (advances (ok fetched) refl))
                (advances (ok fetched) refl))
              (advances (ok fetched) refl))
            (advances (ok fetched) refl))
          (unlocks refl))
        (dials 3 refl refl);
}

dialing-InStep_example : InStep dialled.last.ext
unfolding dialled
dialing-InStep_example = dialing-InStep extension_config started started_lem dialled.reach 3 refl
