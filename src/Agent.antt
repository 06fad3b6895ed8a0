-- ===== src/Agent.antt =====
-- The collector of internal/agent: the daemon of daemon.go and the reporter of agent.go.
pub mod Reporter
pub mod Running
pub mod Daemon
pub mod Sessions
