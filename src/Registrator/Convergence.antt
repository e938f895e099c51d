-- ===== src/Registrator/Convergence.antt =====
-- A full pass over a Consul that behaves as documented leaves it with the services that the Lambda
-- functions ask for.
pub mod Laws
pub mod Own
pub mod Carry
pub mod Read
pub mod Local
pub mod Pass
pub mod Request
