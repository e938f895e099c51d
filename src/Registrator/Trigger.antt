-- ===== src/Registrator/Trigger.antt =====
-- trigger.go up to `GetLambdaEvents`: the tags of a function decide the events that bring Consul
-- in step with it.
pub mod Named
pub mod Scope
pub mod Off
use terraform_aws_consul_lam.Prelude.{
  Text, text, ◌==◌, text_eq, Bool, true, false, not, ◌&&◌, ◌||◌, Option, none, some, List, [], ◌∷◌,
  ◌++◌, if◌then◌else◌,
}
use terraform_aws_consul_lam.Prelude.Int.{pos}
use terraform_aws_consul_lam.Prelude.Dict.{Dict, lookup, contains}
use mathlib.Core.List.{map}
use terraform_aws_consul_lam.Errors.{
  Result, ok, err, ◌>>=◌, not_enterprise, invalid_invocation_mode, arn_undefined,
  unsupported_event_kind,
}
use terraform_aws_consul_lam.Strings.{split}
use terraform_aws_consul_lam.Structs.{
  EnterpriseMeta, Service, no_service, default, new_enterprise_meta,
}
use terraform_aws_consul_lam.Registrator.Config.{Config}
use terraform_aws_consul_lam.Registrator.Event.{
  Event, upsert, delete, UpsertEvent, DeleteEvent, LambdaArguments, upsert_alias, delete_alias,
}

abbrev pub Tags : Type 0
Tags = Dict Text Text

-- lambda_client.go
pub record LambdaFunction : Type 0 where
  pub arn : Text
  pub name : Text
  pub tags : Tags

pub record ResponseElements : Type 0 where
  pub function_arn : Text

pub record RequestParameters : Type 0 where
  pub function_name : Text
  pub resource : Text

pub record Detail : Type 0 where
  pub event_id : Text
  pub error_code : Text
  pub event_name : Text
  pub response_elements : ResponseElements
  pub request_parameters : RequestParameters

pub record AwsEvent : Type 0 where
  pub detail : Detail

abbrev pub enabled_tag : Text
enabled_tag = text "serverless.consul.hashicorp.com/v1alpha1/lambda/enabled"

abbrev pub payload_passthrough_tag : Text
payload_passthrough_tag = text "serverless.consul.hashicorp.com/v1alpha1/lambda/payload-passthrough"

abbrev pub datacenter_tag : Text
datacenter_tag = text "serverless.consul.hashicorp.com/v1alpha1/lambda/datacenter"

abbrev pub partition_tag : Text
partition_tag = text "serverless.consul.hashicorp.com/v1alpha1/lambda/partition"

abbrev pub namespace_tag : Text
namespace_tag = text "serverless.consul.hashicorp.com/v1alpha1/lambda/namespace"

abbrev pub aliases_tag : Text
aliases_tag = text "serverless.consul.hashicorp.com/v1alpha1/lambda/aliases"

abbrev pub invocation_mode_tag : Text
invocation_mode_tag = text "serverless.consul.hashicorp.com/v1alpha1/lambda/invocation-mode"

abbrev pub asynchronous : Text
asynchronous = text "ASYNCHRONOUS"

abbrev pub synchronous : Text
synchronous = text "SYNCHRONOUS"

or_empty : Option Text → Text
or_empty none = []
or_empty (some v) = v

-- `tags[key]`, the empty string for a missing key
unfoldable pub get_tag : Tags → Text → Text
unfolding or_empty
get_tag tags key = or_empty (lookup key tags)

is_true : Option Text → Bool
is_true none = false
is_true (some v) = v == text "true"

-- `if v, ok := tags[key]; ok { flag = v == "true" }`
unfoldable pub flag_tag : Tags → Text → Bool
unfolding is_true
flag_tag tags key = is_true (lookup key tags)

check_mode : Option Text → Result Text
check_mode none = ok synchronous
check_mode (some mode) =
    if mode == asynchronous || mode == synchronous
    then ok mode
    else err (invalid_invocation_mode mode)

unfoldable pub invocation_mode : Tags → Result Text
unfolding check_mode
invocation_mode tags = check_mode (lookup invocation_mode_tag tags)

meta_of : Bool → Option EnterpriseMeta → Result (Option EnterpriseMeta)
meta_of false none = ok none
meta_of false (some em) = err not_enterprise
meta_of true none = ok (new_enterprise_meta default default)
meta_of true (some em) = ok (some em)

-- The enterprise metadata of the tags, the defaults put in where Consul is Enterprise
unfoldable pub tags_meta : Config → Tags → Result (Option EnterpriseMeta)
unfolding meta_of
tags_meta env tags =
    meta_of env.is_enterprise
      (new_enterprise_meta (get_tag tags partition_tag) (get_tag tags namespace_tag))

-- Whether the registrator handles the partition
unfoldable pub is_handled : Config → Option EnterpriseMeta → Bool
is_handled env none = true
is_handled env (some em) = not env.is_enterprise || contains em.partition env.partitions

split_aliases : Option Text → List Text
split_aliases none = []
split_aliases (some raw) = split b'+' raw

unfoldable pub aliases : Tags → List Text
unfolding split_aliases
aliases tags = split_aliases (lookup aliases_tag tags)

-- The base event first, then one event for each alias, in the order of the tag
unfoldable pub upsert_events : UpsertEvent → List Text → List Event
upsert_events base names = upsert base ∷ map (λ alias. upsert (upsert_alias base alias)) names

unfoldable pub delete_events : DeleteEvent → List Text → List Event
delete_events base names = delete base ∷ map (λ alias. delete (delete_alias base alias)) names

-- The service of a function, with the metadata `em`
unfoldable pub lambda_service : LambdaFunction → Option EnterpriseMeta → Service
lambda_service fn em = record no_service {
  name = fn.name;
  datacenter = get_tag fn.tags datacenter_tag;
  enterprise_meta = em;
}

unfoldable pub events_for : LambdaFunction → Text → Option EnterpriseMeta → List Event
unfolding upsert_events delete_events lambda_service
events_for fn mode em =
    if flag_tag fn.tags enabled_tag
    then upsert_events
        (record {
          service = lambda_service fn em;
          arguments = record {
            arn = fn.arn;
            payload_passthrough = flag_tag fn.tags payload_passthrough_tag;
            invocation_mode = mode;
          };
        })
        (aliases fn.tags)
    else delete_events (record { service = lambda_service fn em }) (aliases fn.tags)

-- Whether the function belongs to a datacenter that is not this registrator's
unfoldable pub is_remote : Config → Tags → Bool
is_remote env tags =
    not (env.datacenter == []) && not (env.datacenter == get_tag tags datacenter_tag)

tagged_events : Config → LambdaFunction → Result (List Event)
tagged_events env fn = do
  mode ← invocation_mode fn.tags
  em ← tags_meta env fn.tags
  if is_handled env em then ok (events_for fn mode em) else ok []

-- `GetLambdaEvents`
unfoldable pub get_lambda_events : Config → LambdaFunction → Result (List Event)
unfolding tagged_events
get_lambda_events env fn = if is_remote env fn.tags then ok [] else tagged_events env fn

is_create : Text → Bool
is_create name = name == text "CreateFunction20150331" || name == text "CreateFunction"

is_tag_change : Text → Bool
is_tag_change name =
    name == text "TagResource20170331v2"
    || name == text "TagResource20170331"
    || name == text "TagResource"
    || name == text "UntagResource20170331v2"
    || name == text "UntagResource20170331"
    || name == text "UntagResource"

require_arn : Text → Result Text
require_arn arn = if arn == [] then err arn_undefined else ok arn

-- The switch of `AWSEventToEvents`, with the test of the ARN behind it
unfoldable pub event_arn : AwsEvent → Result Text
unfolding is_create is_tag_change require_arn
event_arn event =
    let detail = event.detail in
    if is_create detail.event_name
    then require_arn detail.response_elements.function_arn
    else if is_tag_change detail.event_name
    then require_arn detail.request_parameters.resource
    else err (unsupported_event_kind detail.event_name)
