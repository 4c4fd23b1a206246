-- ===== src/Config.antt =====
-- src/dnsconfd_config.h: the configuration of the daemon.
pub mod Sound
use dnsconfd.Prelude.{Option, List, Text}
use dnsconfd.Prelude.Int.{ℤ}
use dnsconfd.Ip.{SockAddr}
use dnsconfd.Server.{Server}

-- `dnsconfd_mode_t`.
pub data Mode : Type 0 where
  backup prefer exclusive : Mode

-- `config_boolean_t`.
pub data ConfigBoolean : Type 0 where
  unset on off : ConfigBoolean

pub record RpzZone : Type 0 where
  pub name : Option Text
  pub master : Option Text
  pub zonefile : Option Text

-- `dnsconfd_config_t` without the command and its options.
pub record Config : Type 0 where
  pub file_log : Option Text
  pub resolv_conf_path : Option Text
  pub resolver_options : Option Text
  pub config_file : Option Text
  pub certification_authority : Option Text
  pub static_servers : List Server
  pub rpz_zones : List RpzZone
  pub listen_address : SockAddr
  pub log_level : ℤ
  pub stderr_log : ConfigBoolean
  pub syslog_log : ConfigBoolean
  pub prioritize_wire : ConfigBoolean
  pub dnssec_enabled : ConfigBoolean
