-- ===== src/Examples.antt =====
-- Tests of the models on concrete servers, and each theorem at an input that its hypotheses admit.
pub mod Data
mod Policies
mod Health
mod Ring
mod Text
mod Events
mod Memory
mod Queues
mod Config
mod Workers
mod Containers
mod Chains
mod Bytes
mod Sockets
