-- ===== src/Registrator.antt =====
-- consul-lambda/consul-lambda-registrator: the Lambda function that keeps Consul in step with the
-- functions of an AWS account.
pub mod Event
pub mod Platform
pub mod Config
pub mod Trigger
pub mod LambdaClient
pub mod Sync
pub mod Reconcile
pub mod Handler
pub mod Convergence
