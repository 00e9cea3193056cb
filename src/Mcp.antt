-- ===== src/Mcp.antt =====
-- The MCP endpoint and the registry of trusted tasks, and the clients of the agents.
pub mod Registry
pub mod Server
pub mod Client
pub mod Boundary
pub mod Calls
pub mod Dispatch
pub mod Served
pub mod Surface
