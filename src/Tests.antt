-- ===== src/Tests.antt =====
-- Runs of the models on concrete clusters.
mod Memory
mod MemoryLaws
mod Fixtures
mod Policies
mod Sends
mod Startup
mod Exchanges
mod Clusters
mod Agents
mod Commands
