-- ===== src/Examples.antt =====
-- The theorems at concrete inputs.
mod Ledger
mod Broker
mod Policy
mod Api
mod Domain
mod Feed
mod Live
mod Server
mod Judge
mod Agents
mod Gateway
