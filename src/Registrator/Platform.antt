-- ===== src/Registrator/Platform.antt =====
-- What the registrator calls and this repository does not implement: the clients of Consul, AWS
-- Lambda and Parameter Store, the JSON codec, the process environment. `State` is the outside
-- world, which every call may change.
use terraform_aws_consul_lam.Prelude.{Text, Option, List}
use terraform_aws_consul_lam.Prelude.Dict.{Dict}
use terraform_aws_consul_lam.Errors.{Result}
use terraform_aws_consul_lam.Exec.{Exec}
use terraform_aws_consul_lam.Structs.{ExtensionData}
use terraform_aws_consul_lam.Registrator.Event.{
  RequestOptions, ServiceConfigEntry, CatalogRegistration, CatalogDeregistration,
}
use terraform_aws_consul_lam.Registrator.Config.{Config}
use terraform_aws_consul_lam.Registrator.Trigger.{AwsEvent, LambdaFunction}

-- `api.CARoot` and `api.CARootList`
pub record CaRoot : Type 0 where
  pub id : Text
  pub root_cert_pem : Text

pub record CaRootList : Type 0 where
  pub active_root_id : Text
  pub trust_domain : Text
  pub roots : List CaRoot

-- `api.LeafCert`
pub record LeafCert : Type 0 where
  pub private_key_pem : Text
  pub cert_pem : Text

pub record Platform : Type 1 where
  pub State : Type 0
  -- `api.ServiceDefaults` and `api.BuiltinAWSLambdaExtension`
  pub service_defaults : Text
  pub builtin_aws_lambda : Text
  -- `Catalog().Register`, `Catalog().Deregister`, `Catalog().Services`
  pub register : CatalogRegistration → RequestOptions → Exec State Unit
  pub deregister : CatalogDeregistration → RequestOptions → Exec State Unit
  pub services : Option RequestOptions → Exec State (Dict Text (List Text))
  -- `ConfigEntries().Set`, `ConfigEntries().Delete`
  pub set_config : ServiceConfigEntry → RequestOptions → Exec State Unit
  pub delete_config : Text → Text → RequestOptions → Exec State Unit
  -- `Namespaces().List` in a partition, `Agent().ConnectCARoots`, `Agent().ConnectCALeaf`
  pub namespaces : Text → Exec State (List Text)
  pub ca_roots : Exec State CaRootList
  pub ca_leaf : Text → Exec State LeafCert
  -- the interfaces `ParamStore` and `LambdaAPIClient` of environment.go
  pub store_get : Text → Exec State Text
  pub store_set : Text → Text → Exec State Unit
  pub store_delete : Text → Exec State Unit
  pub get_function : Text → Exec State LambdaFunction
  pub list_functions : Exec State (Dict Text LambdaFunction)
  -- `json.Marshal` of the extension data
  pub marshal : ExtensionData → Result Text
  -- a value of `interface{}`, its type assertion to a string, and `mapstructure.Decode`
  pub Value : Type 0
  pub as_string : Value → Option Text
  pub decode : Dict Text Value → Result AwsEvent
  -- `envconfig.Process`, `config.LoadDefaultConfig`, `os.Setenv`, `os.WriteFile`, `api.NewClient`
  pub process_environment : Exec State Config
  pub load_sdk_config : Exec State Unit
  pub set_env : Text → Text → Exec State Unit
  pub write_file : Text → Text → Exec State Unit
  pub new_client : Exec State Unit
