-- ===== src/Options/Global.antt =====
-- src/configuration_parsing/global_options.c: the options of the command line, the merge of the
-- sources of options, and their defaults. `argp` is the parameter that gives the options one by one;
-- the subcommands are left out, and memory does not run out.
pub mod Merging
pub mod Follows
pub mod Laws
pub mod Precedence
use dnsconfd.Prelude.{
  ℕ, Bool, true, false, Option, none, some, List, [], ◌∷◌, Text, codes, if◌then◌else◌, is_nil,
}
use dnsconfd.Prelude.Int.{ℤ, pos, negsuc, ltb_ℤ}
use dnsconfd.Ip.{SockAddr, Inet, unspec, inet, family_eq, cleared, parse_ip_str}
use dnsconfd.Server.{Server}
use dnsconfd.Config.{Config, RpzZone, ConfigBoolean, unset, on, off}
use dnsconfd.Yaml.{Outcome, done, failed, exhausted, on_done}
use dnsconfd.Options.{parse_log_level}
use dnsconfd.Options.Environment.{parse_environment_variables}
use dnsconfd.Options.File.{Files, parse_config_file}

-- The options of the daemon, with their arguments.
pub data GlobalOption : Type 0 where
  log_level file_log resolv_conf_path listen_address resolver_options config_file
        certification_authority :
      Text → GlobalOption
  stderr_log no_stderr_log syslog_log no_syslog_log prioritize_wire no_prioritize_wire
        dnssec_enabled no_dnssec_enabled :
      GlobalOption

-- `none`: `argp_error` ends the process.
unfoldable pub parse_global_opt : Inet → GlobalOption → Config → Option Config
parse_global_opt net (log_level arg) config =
    if ltb_ℤ (parse_log_level arg) (pos 0)
    then none
    else some (record config { log_level = parse_log_level arg })
parse_global_opt net stderr_log config = some (record config { stderr_log = on })
parse_global_opt net no_stderr_log config = some (record config { stderr_log = off })
parse_global_opt net syslog_log config = some (record config { syslog_log = on })
parse_global_opt net no_syslog_log config = some (record config { syslog_log = off })
parse_global_opt net (file_log arg) config = some (record config { file_log = some arg })
parse_global_opt net (resolv_conf_path arg) config =
    some (record config { resolv_conf_path = some arg })
parse_global_opt net (listen_address arg) config =
    elim (parse_ip_str net arg config.listen_address) [
      | none ↦ none
      | some a ↦ some (record config { listen_address = a })
    ]
parse_global_opt net prioritize_wire config = some (record config { prioritize_wire = on })
parse_global_opt net no_prioritize_wire config = some (record config { prioritize_wire = off })
parse_global_opt net (resolver_options arg) config =
    some (record config { resolver_options = some arg })
parse_global_opt net dnssec_enabled config = some (record config { dnssec_enabled = on })
parse_global_opt net no_dnssec_enabled config = some (record config { dnssec_enabled = off })
parse_global_opt net (config_file arg) config = some (record config { config_file = some arg })
parse_global_opt net (certification_authority arg) config =
    some (record config { certification_authority = some arg })

-- `argp_parse`, which calls the parser for each option in turn.
unfoldable pub argp_parse : Inet → List GlobalOption → Config → Outcome Config
unfolding parse_global_opt
argp_parse net [] config = done config
argp_parse net (option ∷ options) config = elim (parse_global_opt net option config) [
  | none ↦ failed none
  | some next ↦ argp_parse net options next
]

-- The elements of the loops of `merge_configs`.
abbrev pub merge_text : Option Text → Option Text → Option Text
merge_text none low = low
merge_text (some high) low = some high

abbrev pub merge_list : {A : Type 0} → List A → List A → List A
merge_list [] low = low
merge_list (x ∷ high) low = x ∷ high

abbrev pub merge_boolean : ConfigBoolean → ConfigBoolean → ConfigBoolean
merge_boolean unset low = low
merge_boolean on low = on
merge_boolean off low = off

-- What `high_prio` holds after it.
unfoldable pub merge_configs : Config → Config → Config
merge_configs high low = record {
  file_log = merge_text high.file_log low.file_log;
  resolv_conf_path = merge_text high.resolv_conf_path low.resolv_conf_path;
  resolver_options = merge_text high.resolver_options low.resolver_options;
  config_file = merge_text high.config_file low.config_file;
  certification_authority = merge_text high.certification_authority low.certification_authority;
  static_servers = merge_list high.static_servers low.static_servers;
  rpz_zones = merge_list high.rpz_zones low.rpz_zones;
  listen_address =
      if family_eq high.listen_address.family unspec
      then low.listen_address
      else high.listen_address;
  log_level = if ltb_ℤ high.log_level (pos 0) then low.log_level else high.log_level;
  stderr_log = merge_boolean high.stderr_log low.stderr_log;
  syslog_log = merge_boolean high.syslog_log low.syslog_log;
  prioritize_wire = merge_boolean high.prioritize_wire low.prioritize_wire;
  dnssec_enabled = merge_boolean high.dnssec_enabled low.dnssec_enabled;
}

-- `temp_config` before a source fills it.
abbrev pub empty_config : Config
empty_config = record {
  file_log = none;
  resolv_conf_path = none;
  resolver_options = none;
  config_file = none;
  certification_authority = none;
  static_servers = [];
  rpz_zones = [];
  listen_address = cleared;
  log_level = negsuc 0;
  stderr_log = unset;
  syslog_log = unset;
  prioritize_wire = unset;
  dnssec_enabled = unset;
}

abbrev pub default_config_file : Text
default_config_file = codes "/etc/dnsconfd/dnsconfd.conf"

-- The path of the configuration file, or the default one.
abbrev pub chosen_config_file : Config → Text
chosen_config_file config = elim config.config_file [
  | none ↦ default_config_file
  | some path ↦ path
]

-- The default listen address 127.0.0.1 in a structure; `inet_pton` leaves it if it fails.
unfoldable pub default_listen_address : Inet → SockAddr → SockAddr
default_listen_address net address = elim (net.pton4 (codes "127.0.0.1")) [
  | none ↦ record address { family = inet }
  | some a ↦ record address { family = inet; sin_addr = a }
]

abbrev pub or_default_text : Option Text → Text → Option Text
or_default_text value default = merge_text value (some default)

-- What the end of `parse_configuration` sets where no source did.
unfoldable pub with_defaults : Inet → Config → Config
unfolding default_listen_address
with_defaults net config = record config {
  log_level = if ltb_ℤ config.log_level (pos 0) then pos 6 else config.log_level;
  stderr_log = merge_boolean config.stderr_log on;
  syslog_log = merge_boolean config.syslog_log off;
  resolv_conf_path = or_default_text config.resolv_conf_path (codes "/etc/resolv.conf");
  listen_address =
      if family_eq config.listen_address.family unspec
      then default_listen_address net config.listen_address
      else config.listen_address;
  prioritize_wire = merge_boolean config.prioritize_wire on;
  dnssec_enabled = merge_boolean config.dnssec_enabled off;
  resolver_options = or_default_text config.resolver_options (codes "edns0 trust-ad");
  certification_authority = or_default_text config.certification_authority (
      codes
        "/etc/pki/dns/extracted/pem/tls-ca-bundle.pem /etc/pki/ca-trust/extracted/pem/tls-ca-bundle.pem");
}

-- The configuration before the file is read: the command line, then the environment.
unfoldable pub first_config : Inet → (Text → Option Text) → List GlobalOption → Outcome Config
unfolding argp_parse parse_environment_variables merge_configs
first_config net env options = on_done (argp_parse net options empty_config) (λ config.
    on_done (parse_environment_variables net env empty_config) (λ temp.
      (let merged = merge_configs config temp in
        done (record merged { config_file = some (chosen_config_file merged) }))))

unfoldable pub parse_configuration :
    Inet → (ℕ → SockAddr) → Files → (Text → Option Text) → List GlobalOption → Outcome Config
unfolding first_config parse_config_file with_defaults
parse_configuration net memory files env options = on_done (first_config net env options) (λ config.
    on_done (parse_config_file net memory files (chosen_config_file config) empty_config)
      (λ temp. done (with_defaults net (merge_configs config temp))))
