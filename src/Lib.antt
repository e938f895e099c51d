-- ===== src/Lib.antt =====
-- The Lambda registrator and the Lambda extension of terraform-aws-consul-lambda, and what they are
-- proved to do.
--
-- Two programs share this repository. The registrator is a Lambda function that AWS calls for every
-- change to a function of the account, and at intervals for all of them. It reads the tags of the
-- functions and brings the Consul catalog, the config entries of Consul and the mTLS data in
-- Parameter Store in step with them. The extension runs beside a function, reads the mTLS data of
-- that function's service from Parameter Store, and opens a port for each upstream: a proxy that dials
-- the mesh gateway. The example function calls its upstreams through those ports.
--
-- Which file models which code (paths begin at consul-lambda/):
--   Strings.antt, Url.antt      what the program uses of Go's strings, strconv and net/url
--   Errors.antt, Exec.antt      errors as data, and calls that change the state outside
--   Structs.antt                structs/service.go and structs/ext_data.go
--   Client.antt                 client/ssm.go
--   Registrator/Config.antt     consul-lambda-registrator/environment.go, `Config`
--   Registrator/Event.antt      upsert_event.go and delete_event.go: events and requests
--   Registrator/Trigger.antt    trigger.go up to `GetLambdaEvents`
--   Registrator/LambdaClient.antt  lambda_client.go
--   Registrator/Platform.antt   the calls of Consul, AWS and the process, as one parameter
--   Registrator/Sync.antt       trigger.go, `AWSEventToEvents` and `FullSyncData` with their helpers
--   Registrator/Reconcile.antt  `Reconcile` of both events
--   Registrator/Handler.antt    main.go, and `SetupEnvironment` in Handler/Setup.antt
--   Registrator/Convergence.antt  a whole pass of the registrator, over a Consul as documented
--   Extension.antt              consul-lambda-extension/extension.go
--   Extension/Dial.antt         extension.go, `proxyConfig`
--   Extension/DataLock.antt     extension.go, `getExtensionData` and the lock that dials share with it
--   Extension/Start.antt        extension.go, `Start`, `startProxy` and `runEvents` as a step relation
--   Extension/Main.antt         consul-lambda-extension/main.go
--   Extension/LambdaClient.antt  consul-lambda-extension/lambda_client.go
--   Proxy/Listener.antt         proxy/listener.go as a step relation on any number of goroutines
--   Proxy/Listener/Contract.antt  what a listener promises, without its goroutines
--   Proxy/Server.antt           proxy/proxy.go, as a step relation over its listeners
--   Proxy/Conn.antt             proxy/conn.go, as a step relation
--   Trace.antt                  trace/trace.go, and trace/logger.go in Trace/Log.antt
--   ExampleFunction.antt        the function of examples/lambda/src/lambda/main.go (from the root), and
--                               in ExampleFunction/Goroutines.antt its goroutines and channels
-- The children of a module hold its theorems and are named for what they prove. Tests/ has an
-- in-memory platform and the theorems at concrete inputs.
--
-- Names are the source's in snake case: `GetLambdaEvents` is `get_lambda_events`. A struct is a
-- record, an embedded struct a field; a nil pointer is `none`; an error is a constructor of `Error`;
-- a Go string is the list of its bytes. A map is an association list with one entry for a key, whose
-- order stands for the order of a `range`, so that a theorem for every list holds for every order.
-- A call that acts on the outside takes the state of the outside and returns the next one beside its
-- result, also where it fails: what was done before an error stays done.
--
-- Bounds: an int is an int64. `print`, which writes a number, runs on fuel; `print_uint n` gives it
-- `suc n`, more than the number has digits. All other recursion is structural. The loop that
-- refreshes the extension's data runs over the signals that come, and the loop that polls the
-- runtime over what its context says in each turn, lists of any length.
--
-- Concurrent code is a step relation. A goroutine is a number with what it does next, or an entry of
-- a list where all do the same; a step is an operation on a mutex, a flag or a channel or a call of
-- the network, and a theorem on the reachable states holds for every schedule. A send on a closed
-- channel, closing a channel twice and a negative counter of a wait group are recorded in the state, and
-- so is a `WaitGroup.Add` at a zero counter beside a `Wait`, which may panic. In the example function
-- every call of the network is taken to return.
--
-- Parameters: the clients of Consul, of the Lambda API, of SSM and of HTTP, the JSON codec, TLS,
-- mapstructure, envconfig, `sort.Sort` and the process environment. What a theorem relies on is among
-- its hypotheses; `IsConsul`, `IsParameterStore` and `Sorts` collect what is asked of Consul, of
-- Parameter Store and of `sort.Sort`. The catalog of `IsConsul` holds instances by partition and
-- namespace, node and ID. The registrator looks for its tag on all nodes and writes to its own, so the
-- theorems on a pass ask that nobody else use the tag (`OwnsTag`).
--
-- Not modelled: the log messages of the programs, the bytes that a connection carries, the Terraform
-- modules and the acceptance tests. `strings.EqualFold` and `strings.ToLower` are
-- modelled on ASCII texts.
pub mod Prelude
pub mod Errors
pub mod Strings
pub mod Url
pub mod Structs
pub mod Client
pub mod Exec
pub mod Registrator
pub mod Proxy
pub mod ExampleFunction
pub mod Trace
pub mod Extension
pub mod Tests
