-- ===== src/Tests.antt =====
-- Runs of the definitions at concrete inputs, and the theorems at inputs that meet their hypotheses.
mod Relay
mod Auth
mod Services
mod Guard
mod Share
mod Processes
mod ClientCli
mod Restart
mod IpAnalytics
mod Systemd
mod RelayClient
mod Gui
mod Certificates
mod IpBlock
