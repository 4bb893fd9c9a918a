-- ===== src/Tests.antt =====
-- Sample resources, runs of the definitions on them, and the theorems at concrete inputs.
mod Samples
mod Dag
mod Phase
mod Local
mod Operator
mod Events
mod Agents
mod Runtime
mod Webhook
mod Provider
mod Stream
mod Cli
mod Config
mod Journey
