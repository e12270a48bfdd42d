-- ===== src/Examples.antt =====
-- Concrete inputs: small stand-ins for the libraries that the code calls, and the theorems at
-- values that meet their hypotheses.
mod Base64
mod HandshakeText
mod Json
mod Engine
mod Connections
mod Sockets
mod Deliveries
mod Posts
mod Handlers
mod Recipients
mod Responses
mod Servers
mod Clients
mod Builders
mod Requests
mod EngineServers
mod Hosts
mod Tasks
