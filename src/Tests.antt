-- ===== src/Tests.antt =====
-- The properties at concrete inputs: an in-memory Consul, Lambda and Parameter Store, and a run of
-- each theorem on them.
mod Memory
mod Consul
mod Pass
mod Settled
mod Registrator
mod Structs
mod Extension
mod Proxy
mod Conn
mod Server
mod Start
mod ExampleFunction
mod Goroutines
mod DataLock
mod Trace
mod Client
mod Runtime
