-- ===== src/Tests/Registrator.antt =====
-- The registrator's theorems, applied to the sample of Tests/Pass.antt.
use terraform_aws_consul_lam.Prelude.{
  ◌≡◌, ◌↔◌, refl, sym, ap, arith, ℕ, Text, text, text_eq, Bool, true, false, Option, none, some,
  List, [], ◌∷◌, All, inl, if◌then◌else◌,
}
use terraform_aws_consul_lam.Prelude.Dict.{Dict, lookup, lookup-nil}
use terraform_aws_consul_lam.Errors.{Result, ok, err, external}
use terraform_aws_consul_lam.Structs.{em_eq, new_enterprise_meta}
use terraform_aws_consul_lam.Registrator.Trigger.{
  LambdaFunction, Tags, get_lambda_events, get_tag, enabled_tag, partition_tag, namespace_tag,
  aliases_tag,
}
use terraform_aws_consul_lam.Registrator.Handler.Failures.{process-failures, failures, all_entries}
use terraform_aws_consul_lam.Registrator.Trigger.Off.{targets, get_lambda_events-off}
use terraform_aws_consul_lam.Registrator.Trigger.{flag_tag}
use terraform_aws_consul_lam.Prelude.{◌≢◌, ◌++◌}
use terraform_aws_consul_lam.Registrator.Trigger.Scope.{get_lambda_events-InScope, EventInScope}
use terraform_aws_consul_lam.Registrator.LambdaClient.{list_functions, FunctionOutput}
use terraform_aws_consul_lam.Registrator.LambdaClient.Listing.{
  list_functions_lem, steady, pages_of, last_fetched,
}
use terraform_aws_consul_lam.Registrator.Sync.{collect, plan, EventMap, ServiceMap, meta_key}
use terraform_aws_consul_lam.Registrator.Sync.View.{
  after, has, wanted, find, IsPlannable, IsKeyed, IsScanned,
}
use terraform_aws_consul_lam.Registrator.Sync.Plan.{after-plan}
use terraform_aws_consul_lam.Registrator.Sync.Collect.{
  find-collect, collect-IsKeyed, last_event, all_events,
}
use terraform_aws_consul_lam.Registrator.Handler.{process}
use terraform_aws_consul_lam.Tests.Memory.{memory, sample_config}
use terraform_aws_consul_lam.Tests.Pass.{
  oss, sample_event, sample_events, sample_function, sample_functions, stale,
}

abbrev lambdas : EventMap
lambdas = (oss, (text "f", sample_event) ∷ []) ∷ []

abbrev found : ServiceMap
found = (oss, (text "old", tt) ∷ []) ∷ []

oss-IsScanned : IsScanned oss
unfolding meta_key new_enterprise_meta text_eq
oss-IsScanned = refl

lambdas-IsKeyed : IsKeyed lambdas
unfolding lookup meta_key
lambdas-IsKeyed = ((refl, refl, refl, tt), refl, tt)

lambdas-IsPlannable : IsPlannable lambdas found
lambdas-IsPlannable = record {
  keyed = lambdas-IsKeyed;
  scanned = (oss-IsScanned, tt);
  nodup = (lookup-nil oss, tt);
}

after-plan_example :
    after oss (text "old") (has oss (text "old") found) (plan lambdas found)
    ≡ wanted oss (text "old") lambdas
after-plan_example = after-plan lambdas found oss (text "old") lambdas-IsPlannable

sample_upserted : get_lambda_events sample_config sample_function ≡ ok (sample_event ∷ [])
unfolding get_lambda_events terraform_aws_consul_lam.Registrator.Trigger.is_remote
    terraform_aws_consul_lam.Prelude.text_eq
    terraform_aws_consul_lam.Registrator.Trigger.invocation_mode lookup text
    terraform_aws_consul_lam.Registrator.Trigger.tags_meta new_enterprise_meta get_tag
    terraform_aws_consul_lam.Registrator.Trigger.is_handled
    terraform_aws_consul_lam.Registrator.Trigger.events_for
    terraform_aws_consul_lam.Registrator.Trigger.flag_tag
    terraform_aws_consul_lam.Registrator.Trigger.aliases
sample_upserted = refl

get_lambda_events-InScope_example :
    All (EventInScope sample_config sample_function.tags) (sample_event ∷ [])
get_lambda_events-InScope_example =
    get_lambda_events-InScope sample_config sample_function (sample_event ∷ []) sample_upserted

find-collect_example :
    find oss (text "f") (collect sample_config sample_functions (lambdas, none)).0
    ≡ last_event oss
        (text "f")
        (find oss (text "f") lambdas)
        (all_events sample_config sample_functions)
find-collect_example = find-collect sample_config oss (text "f") sample_functions lambdas none

collect-IsKeyed_example : IsKeyed (collect sample_config sample_functions (lambdas, none)).0
collect-IsKeyed_example =
    collect-IsKeyed sample_config sample_functions lambdas none lambdas-IsPlannable.keyed

-- An account whose second function cannot be fetched
abbrev fetch : Text → Result FunctionOutput
fetch [] = err (external [])
fetch (c ∷ s) = ok (record { function_arn = c ∷ s; function_name = text "f"; tags = [] })

list_functions_lem_example :
    (lambdas : Dict Text LambdaFunction) × ((list_functions
        (steady {S = ℕ} fetch)
        (pages_of ((text "a" ∷ [] ∷ []) ∷ []))
        ([], none)
        0).0
      ≡ ok lambdas)
    × ((arn : Text)
        → lookup arn lambdas ≡ last_fetched fetch arn (lookup arn []) ((text "a" ∷ [] ∷ []) ∷ []))
list_functions_lem_example = list_functions_lem fetch ((text "a" ∷ [] ∷ []) ∷ []) [] none 0

-- The sample function without its tag
abbrev switched_off : LambdaFunction
switched_off = record sample_function { tags = [] }

was_on : flag_tag sample_function.tags enabled_tag ≡ true
unfolding flag_tag lookup text_eq text
was_on = refl

is_off : flag_tag switched_off.tags enabled_tag ≡ false
unfolding flag_tag lookup
is_off = refl

other_tags :
    (key : Text)
    → key ≢ enabled_tag
    → lookup key switched_off.tags ≡ lookup key sample_function.tags
unfolding lookup
other_tags key ne = ground arith

get_lambda_events-off_example :
    targets (get_lambda_events sample_config switched_off)
    ≡ targets (get_lambda_events sample_config sample_function)
get_lambda_events-off_example =
    get_lambda_events-off sample_config sample_function switched_off
      (record { name = refl; enabled = was_on; disabled = is_off; tags = other_tags })

process-failures_example :
    all_entries (process memory sample_config sample_events none stale).0
    ≡ all_entries none ++ failures memory sample_config sample_events stale
process-failures_example = process-failures memory sample_config sample_events none stale
