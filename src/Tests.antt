-- ===== src/Tests.antt =====
-- Concrete inputs: the theorems at values that meet their hypotheses, and runs of the model.
mod Keys
mod Config
mod Quotas
mod Schedules
mod Streams
mod Requests
mod Reports
mod Console
mod Upstream
mod Commands
mod Files
mod Gateway
mod Cli
mod Start
mod Tls
mod Tunnel
mod Admitted
mod Merged
mod Secrecy
mod Blind
mod Refused
