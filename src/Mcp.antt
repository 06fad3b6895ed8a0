-- ===== src/Mcp.antt =====
-- The MCP server: the tools of internal/mcp/tools.go (Tools, Calls) and the protocol of
-- internal/mcp/mcp.go (Serve), with the calls that a session makes and its replies.
pub mod Tools
pub mod Calls
pub mod Serve
pub mod Confirmed
pub mod Replies
