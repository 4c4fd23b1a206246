-- ===== src/Client.antt =====
-- The commands of the client: src/cli_commands and their options in src/configuration_parsing.
pub mod Update
pub mod Config
