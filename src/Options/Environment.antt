-- ===== src/Options/Environment.antt =====
-- src/configuration_parsing/environment_config.c.
use dnsconfd.Prelude.{Option, none, some, Text, codes, if◌then◌else◌}
use dnsconfd.Prelude.Int.{pos, ltb_ℤ}
use dnsconfd.Ip.{Inet, parse_ip_str}
use dnsconfd.Config.{Config, ConfigBoolean}
use dnsconfd.Options.{parse_log_level, parse_boolean}
use dnsconfd.Yaml.{Outcome, done, failed, on_done}

abbrev text_variable : Option Text → Option Text → Option Text
text_variable none destination = destination
text_variable (some value) destination = some value

abbrev boolean_variable : Option Text → ConfigBoolean → ConfigBoolean
boolean_variable none destination = destination
boolean_variable (some value) destination = parse_boolean value

-- The loops over the options that are texts and over those that are Booleans. `env` is `getenv`.
unfoldable pub read_simple_variables : (Text → Option Text) → Config → Config
read_simple_variables env config = record config {
  file_log = text_variable (env (codes "FILE_LOG")) config.file_log;
  resolv_conf_path = text_variable (env (codes "RESOLV_CONF_PATH")) config.resolv_conf_path;
  resolver_options = text_variable (env (codes "RESOLVER_OPTIONS")) config.resolver_options;
  certification_authority =
      text_variable (env (codes "CERTIFICATION_AUTHORITY")) config.certification_authority;
  config_file = text_variable (env (codes "CONFIG_FILE")) config.config_file;
  stderr_log = boolean_variable (env (codes "STDERR_LOG")) config.stderr_log;
  syslog_log = boolean_variable (env (codes "SYSLOG_LOG")) config.syslog_log;
  prioritize_wire = boolean_variable (env (codes "PRIORITIZE_WIRE")) config.prioritize_wire;
  dnssec_enabled = boolean_variable (env (codes "DNSSEC_ENABLED")) config.dnssec_enabled;
}

unfoldable pub read_log_level : Option Text → Config → Outcome Config
read_log_level none config = done config
read_log_level (some value) config =
    if ltb_ℤ (parse_log_level value) (pos 0)
    then failed (some (codes "Failed to parse log level in environment variables"))
    else done (record config { log_level = parse_log_level value })

unfoldable pub read_listen_address : Inet → Option Text → Config → Outcome Config
read_listen_address net none config = done config
read_listen_address net (some value) config = elim (parse_ip_str net value config.listen_address) [
  | none ↦ failed (some (codes "Failed to parse listen address from environmental variables"))
  | some a ↦ done (record config { listen_address = a })
]

unfoldable pub parse_environment_variables : Inet → (Text → Option Text) → Config → Outcome Config
unfolding read_simple_variables read_log_level read_listen_address
parse_environment_variables net env config =
    on_done (read_log_level (env (codes "LOG_LEVEL")) (read_simple_variables env config))
      (λ c. read_listen_address net (env (codes "LISTEN_ADDRESS")) c)
