-- ===== src/Registrator/Event.antt =====
-- upsert_event.go and delete_event.go: the two events, their identifiers and aliases, and the
-- requests to Consul that are made of them.
use terraform_aws_consul_lam.Prelude.{
  Text, text, Bool, true, false, Option, none, some, List, [], ◌∷◌, ◌++◌,
}
use terraform_aws_consul_lam.Prelude.Dict.{Dict}
use terraform_aws_consul_lam.Structs.{EnterpriseMeta, Service}

pub record LambdaArguments : Type 0 where
  pub payload_passthrough : Bool
  pub arn : Text
  pub invocation_mode : Text

pub record UpsertEvent : Type 0 where
  pub service : Service
  pub arguments : LambdaArguments

pub record DeleteEvent : Type 0 where
  pub service : Service

-- The interface `Event` of main.go has these two implementations.
pub data Event : Type 0 where
  upsert : UpsertEvent → Event
  delete : DeleteEvent → Event

abbrev pub service_of : Event → Service
service_of (upsert e) = e.service
service_of (delete e) = e.service

-- `Identifier`
unfoldable pub identifier : Event → Text
identifier (upsert e) = e.arguments.arn
identifier (delete e) = e.service.name

-- `fmt.Sprintf("%s-%s", name, alias)`
abbrev pub alias_name : Text → Text → Text
alias_name name alias = name ++ (b'-' ∷ alias)

-- `UpsertEvent.AddAlias`
unfoldable pub upsert_alias : UpsertEvent → Text → UpsertEvent
upsert_alias e alias = record {
  service = record e.service { name = alias_name e.service.name alias };
  arguments = record e.arguments { arn = e.arguments.arn ++ (b':' ∷ alias) };
}

-- `DeleteEvent.AddAlias`
unfoldable pub delete_alias : DeleteEvent → Text → DeleteEvent
delete_alias e alias = record {
  service = record e.service { name = alias_name e.service.name alias };
}

abbrev pub managed_lambda_tag : Text
managed_lambda_tag = text "managed-by-lambda-registrator"

-- The options of `api.QueryOptions` and `api.WriteOptions` that the program sets.
pub record RequestOptions : Type 0 where
  pub datacenter : Text
  pub partition : Text
  pub namespace : Text

meta_options : Text → Option EnterpriseMeta → RequestOptions
meta_options dc none = record { datacenter = dc; partition = []; namespace = [] }
meta_options dc (some em) = record {
  datacenter = dc;
  partition = em.partition;
  namespace = em.namespace;
}

-- `WriteOptions` of upsert_event.go
unfoldable pub write_options : Service → RequestOptions
unfolding meta_options
write_options s = meta_options s.datacenter s.enterprise_meta

-- `QueryOptions` of upsert_event.go
unfoldable pub query_options : Service → RequestOptions
unfolding meta_options
query_options s = meta_options s.datacenter s.enterprise_meta

-- `DeleteEvent.writeOptions`
unfoldable pub delete_options : DeleteEvent → RequestOptions
unfolding meta_options
delete_options e = meta_options e.service.datacenter e.service.enterprise_meta

-- An argument of an Envoy extension, a value of Go's `interface{}`
pub data Argument : Type 0 where
  string_argument : Text → Argument
  bool_argument : Bool → Argument

pub record EnvoyExtension : Type 0 where
  pub name : Text
  pub required : Bool
  pub arguments : Dict Text Argument

-- `api.ServiceConfigEntry`
pub record ServiceConfigEntry : Type 0 where
  pub kind : Text
  pub name : Text
  pub protocol : Text
  pub envoy_extensions : List EnvoyExtension

-- `toConsulServiceConfigEntry`; the kind and the extension's name are constants of the API package.
unfoldable pub to_consul_service_config_entry :
    Text → Text → LambdaArguments → Text → ServiceConfigEntry
to_consul_service_config_entry service_defaults builtin_aws_lambda e name = record {
  kind = service_defaults;
  name = name;
  protocol = text "http";
  envoy_extensions =
      record {
        name = builtin_aws_lambda;
        required = false;
        arguments =
            (text "arn", string_argument e.arn)
            ∷ (text "invocationMode", string_argument e.invocation_mode)
            ∷ (text "payloadPassthrough", bool_argument e.payload_passthrough)
            ∷ [];
      }
      ∷ [];
}

-- `api.CatalogRegistration`, with the fields of its `api.AgentService`
pub record CatalogRegistration : Type 0 where
  pub node : Text
  pub skip_node_update : Bool
  pub node_meta : Dict Text Text
  pub service_id : Text
  pub service : Text
  pub tags : List Text

-- The request of `registerService`
unfoldable pub registration : Text → UpsertEvent → CatalogRegistration
registration node_name e = record {
  node = node_name;
  skip_node_update = true;
  node_meta = (text "external-node", text "true") ∷ (text "external-probe", text "true") ∷ [];
  service_id = e.service.name;
  service = e.service.name;
  tags = managed_lambda_tag ∷ [];
}

-- `api.CatalogDeregistration`
pub record CatalogDeregistration : Type 0 where
  pub node : Text
  pub service_id : Text

-- The request of `deregisterService`
unfoldable pub deregistration : Text → DeleteEvent → CatalogDeregistration
deregistration node_name e = record { node = node_name; service_id = e.service.name }
