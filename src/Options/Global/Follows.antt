-- ===== src/Options/Global/Follows.antt =====
-- The sources of each option, for src/configuration_parsing/global_options.c.
use dnsconfd.Prelude.{
  ◌≡◌, Bool, true, false, Option, none, some, List, [], ◌∷◌, codes, if◌then◌else◌,
}
use dnsconfd.Prelude.Int.{ℤ, pos, ltb_ℤ}
use dnsconfd.Ip.{SockAddr, Inet, unspec, family_eq}
use dnsconfd.Config.{Config, ConfigBoolean, unset, on, off}
use dnsconfd.Options.Global.{default_config_file, default_listen_address}

-- The first of several sources that gives a value.
abbrev pub first_set : {A : Type 0} → List (Option A) → Option A
first_set [] = none
first_set (none ∷ sources) = first_set sources
first_set (some a ∷ sources) = some a

-- The value that an option has, if it has one.
abbrev pub boolean_value : ConfigBoolean → Option Bool
boolean_value unset = none
boolean_value on = some true
boolean_value off = some false

abbrev pub list_value : {A : Type 0} → List A → Option (List A)
list_value [] = none
list_value (x ∷ l) = some (x ∷ l)

abbrev pub level_value : ℤ → Option ℤ
level_value n = if ltb_ℤ n (pos 0) then none else some n

abbrev pub address_value : SockAddr → Option SockAddr
address_value a = if family_eq a.family unspec then none else some a

-- Each option of `c` has its value from the command line, else from the environment, else from the
-- files, else its default.
pub record Follows (net : Inet) (cli env file c : Config) : Type 0 where
  pub file_log : c.file_log ≡ first_set (cli.file_log ∷ env.file_log ∷ file.file_log ∷ [])
  pub resolv_conf_path :
      c.resolv_conf_path
      ≡ first_set (
          cli.resolv_conf_path
          ∷ env.resolv_conf_path
          ∷ file.resolv_conf_path
          ∷ some (codes "/etc/resolv.conf")
          ∷ [])
  pub resolver_options :
      c.resolver_options
      ≡ first_set (
          cli.resolver_options
          ∷ env.resolver_options
          ∷ file.resolver_options
          ∷ some (codes "edns0 trust-ad")
          ∷ [])
  pub certification_authority :
      c.certification_authority
      ≡ first_set (
          cli.certification_authority
          ∷ env.certification_authority
          ∷ file.certification_authority
          ∷ some (
              codes
                "/etc/pki/dns/extracted/pem/tls-ca-bundle.pem /etc/pki/ca-trust/extracted/pem/tls-ca-bundle.pem")
          ∷ [])
  pub config_file :
      c.config_file ≡ first_set (cli.config_file ∷ env.config_file ∷ some default_config_file ∷ [])
  pub static_servers :
      list_value c.static_servers
      ≡ first_set (
          list_value cli.static_servers
          ∷ list_value env.static_servers
          ∷ list_value file.static_servers
          ∷ [])
  pub rpz_zones :
      list_value c.rpz_zones
      ≡ first_set
          (list_value cli.rpz_zones ∷ list_value env.rpz_zones ∷ list_value file.rpz_zones ∷ [])
  pub log_level :
      some c.log_level
      ≡ first_set (
          level_value cli.log_level
          ∷ level_value env.log_level
          ∷ level_value file.log_level
          ∷ some (pos 6)
          ∷ [])
  pub listen_address :
      some c.listen_address
      ≡ first_set (
          address_value cli.listen_address
          ∷ address_value env.listen_address
          ∷ address_value file.listen_address
          ∷ some (default_listen_address net file.listen_address)
          ∷ [])
  pub stderr_log :
      boolean_value c.stderr_log
      ≡ first_set (
          boolean_value cli.stderr_log
          ∷ boolean_value env.stderr_log
          ∷ boolean_value file.stderr_log
          ∷ some true
          ∷ [])
  pub syslog_log :
      boolean_value c.syslog_log
      ≡ first_set (
          boolean_value cli.syslog_log
          ∷ boolean_value env.syslog_log
          ∷ boolean_value file.syslog_log
          ∷ some false
          ∷ [])
  pub prioritize_wire :
      boolean_value c.prioritize_wire
      ≡ first_set (
          boolean_value cli.prioritize_wire
          ∷ boolean_value env.prioritize_wire
          ∷ boolean_value file.prioritize_wire
          ∷ some true
          ∷ [])
  pub dnssec_enabled :
      boolean_value c.dnssec_enabled
      ≡ first_set (
          boolean_value cli.dnssec_enabled
          ∷ boolean_value env.dnssec_enabled
          ∷ boolean_value file.dnssec_enabled
          ∷ some false
          ∷ [])
