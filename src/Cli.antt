-- ===== src/Cli.antt =====
-- internal/cli: the command line client, by its files: Config (config.go), Args (the arguments of
-- run.go), Client (client.go) and Run (the commands of run.go).
pub mod Config
pub mod Args
pub mod Client
pub mod Attach
pub mod Run
pub mod Tests
