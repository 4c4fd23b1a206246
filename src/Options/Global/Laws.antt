-- ===== src/Options/Global/Laws.antt =====
-- The configuration that `parse_configuration` of src/configuration_parsing/global_options.c makes.
use dnsconfd.Prelude.{
  ℕ, ◌<◌, ◌≡◌, ◌⊎◌, inl, inr, refl, Option, none, some, List, [], ◌∷◌, Text, codes, arith, All,
  length, Option-cases, Bool-cases, if◌then◌else◌,
}
use dnsconfd.Prelude.Int.{pos, negsuc, ltb_ℤ}
use dnsconfd.Ip.{SockAddr, Inet, InetLaws, unspec, inet, family_eq, parse_ip_str}
use dnsconfd.Ip.Laws.{
  IsAddress, IsStorage, parse_ip_str-IsAddress, IsAddress-IsStorage, IsStorage-IsAddress,
}
use dnsconfd.Config.{Config, on, off}
use dnsconfd.Config.Sound.{IsSound, IsLevel, same-IsSound, address-IsSound, level-IsSound}
use dnsconfd.Yaml.{failed}
use dnsconfd.Yaml.Laws.{Holds, on_done-Holds, if-Holds}
use dnsconfd.Options.{parse_log_level}
use dnsconfd.Options.Environment.{
  read_simple_variables, read_log_level, read_listen_address, parse_environment_variables,
}
use dnsconfd.Options.File.{Files, parse_config_file}
use dnsconfd.Options.File.Single.Texts.{parse_log_level-IsLevel}
use dnsconfd.Options.File.Laws.{parse_config_file-IsSound}
use dnsconfd.Options.Global.{
  GlobalOption, log_level, file_log, resolv_conf_path, listen_address, resolver_options,
  config_file, certification_authority, stderr_log, no_stderr_log, syslog_log, no_syslog_log,
  prioritize_wire, no_prioritize_wire, dnssec_enabled, no_dnssec_enabled, parse_global_opt,
  argp_parse, merge_configs, empty_config, chosen_config_file, default_listen_address,
  with_defaults, first_config, parse_configuration,
}
use dnsconfd.Options.Global.Merging.{
  IsConfigured, empty-IsSound, IfSound, merge-IsSound, set_boolean, set_text,
}

module _ {net : Inet} (laws : InetLaws net) where
  opt-IsSound : (o : GlobalOption) (c : Config) → IsSound c → IfSound (parse_global_opt net o c)
  unfolding parse_global_opt
  opt-IsSound (log_level arg) c h = elim (Bool-cases (ltb_ℤ (parse_log_level arg) (pos 0))) [
    | inl e ↦ rw e tt
    | inr e ↦ rw e (level-IsSound c (parse_log_level arg) h (parse_log_level-IsLevel arg))
  ]
  opt-IsSound (listen_address arg) c h =
      elim (Option-cases (parse_ip_str net arg c.listen_address)) [
        | inl e ↦ rw (parse_global_opt, e) tt
        | inr (a, e) ↦
            rw (parse_global_opt, e)
              (address-IsSound c a h (
                IsAddress-IsStorage a
                  (parse_ip_str-IsAddress laws arg c.listen_address a h.stored e)))
      ]
  opt-IsSound stderr_log c h = same-IsSound c _ h refl refl refl refl
  opt-IsSound no_stderr_log c h = same-IsSound c _ h refl refl refl refl
  opt-IsSound syslog_log c h = same-IsSound c _ h refl refl refl refl
  opt-IsSound no_syslog_log c h = same-IsSound c _ h refl refl refl refl
  opt-IsSound (file_log arg) c h = same-IsSound c _ h refl refl refl refl
  opt-IsSound (resolv_conf_path arg) c h = same-IsSound c _ h refl refl refl refl
  opt-IsSound prioritize_wire c h = same-IsSound c _ h refl refl refl refl
  opt-IsSound no_prioritize_wire c h = same-IsSound c _ h refl refl refl refl
  opt-IsSound (resolver_options arg) c h = same-IsSound c _ h refl refl refl refl
  opt-IsSound dnssec_enabled c h = same-IsSound c _ h refl refl refl refl
  opt-IsSound no_dnssec_enabled c h = same-IsSound c _ h refl refl refl refl
  opt-IsSound (config_file arg) c h = same-IsSound c _ h refl refl refl refl
  opt-IsSound (certification_authority arg) c h = same-IsSound c _ h refl refl refl refl

  argp-IsSound :
      (options : List GlobalOption) (c : Config)
      → IsSound c
      → Holds IsSound (argp_parse net options c)
  unfolding argp_parse
  argp-IsSound [] c h = h
  argp-IsSound (o ∷ options) c h =
      go (parse_global_opt net o c) (opt-IsSound o c h) (λ d k. argp-IsSound options d k)
    where
      go :
          (r : Option Config)
          → IfSound r
          → ((d : Config) → IsSound d → Holds IsSound (argp_parse net options d))
          → Holds IsSound (elim r [ none ↦ failed none | some next ↦ argp_parse net options next ])
      go none k f = tt
      go (some d) k f = f d k

  level-Holds : (o : Option Text) (c : Config) → IsSound c → Holds IsSound (read_log_level o c)
  unfolding read_log_level
  level-Holds none c h = h
  level-Holds (some t) c h =
      if-Holds IsSound (ltb_ℤ (parse_log_level t) (pos 0)) _ _ (λ _. tt)
        (λ _. level-IsSound c (parse_log_level t) h (parse_log_level-IsLevel t))

  listen-Holds :
      (o : Option Text) (c : Config) → IsSound c → Holds IsSound (read_listen_address net o c)
  unfolding read_listen_address
  listen-Holds none c h = h
  listen-Holds (some t) c h = elim (Option-cases (parse_ip_str net t c.listen_address)) [
    | inl e ↦ rw (read_listen_address, e) tt
    | inr (a, e) ↦
        rw (read_listen_address, e)
          (address-IsSound c a h
            (IsAddress-IsStorage a (parse_ip_str-IsAddress laws t c.listen_address a h.stored e)))
  ]

  environment-IsSound :
      (env : Text → Option Text) (c : Config)
      → IsSound c
      → Holds IsSound (parse_environment_variables net env c)
  unfolding parse_environment_variables read_simple_variables
  environment-IsSound env c h =
      on_done-Holds IsSound IsSound (read_log_level (env (codes "LOG_LEVEL")) _) _
        (level-Holds (env (codes "LOG_LEVEL")) _ (same-IsSound c _ h refl refl refl refl))
        (λ d _ k. listen-Holds (env (codes "LISTEN_ADDRESS")) d k)

  first-IsSound :
      (env : Text → Option Text) (options : List GlobalOption)
      → Holds IsSound (first_config net env options)
  unfolding first_config
  first-IsSound env options =
      on_done-Holds IsSound IsSound (argp_parse net options empty_config) _
        (argp-IsSound options empty_config empty-IsSound)
        (λ c _ h.
          on_done-Holds IsSound IsSound (parse_environment_variables net env empty_config) _
            (environment-IsSound env empty_config empty-IsSound)
            (λ d _ k.
              same-IsSound (merge_configs c d) _ (merge-IsSound c d h k) refl refl refl refl))

  default-IsAddress : (a : SockAddr) → IsStorage a → IsAddress (default_listen_address net a)
  unfolding default_listen_address
  default-IsAddress a h = elim (Option-cases (net.pton4 (codes "127.0.0.1"))) [
    | inl e ↦ rw (default_listen_address, e) (address a.sin_addr h.size4 h.bytes4)
    | inr (b, e) ↦
        let (l, k) = laws.pton4_size (codes "127.0.0.1") b e in
        rw (default_listen_address, e) (address b l k)
  ]
    where
      address :
          (b : Text)
          → length b ≡ 4
          → All (λ x. x < 256) b
          → IsAddress (record a { family = inet; sin_addr = b })
      address b l k = record {
        known = λ e. cc;
        size4 = l;
        bytes4 = k;
        size6 = h.size6;
        bytes6 = h.bytes6;
        port_fits = h.port_fits;
      }

  defaults-IsConfigured : (c : Config) → IsSound c → IsConfigured (with_defaults net c)
  unfolding with_defaults
  defaults-IsConfigured c h = record {
    static = h.static;
    zones = h.zones;
    listening = elim (Bool-cases (family_eq c.listen_address.family unspec)) [
      | inl e ↦ rw e (default-IsAddress c.listen_address h.stored)
      | inr e ↦ rw e (IsStorage-IsAddress c.listen_address e h.stored)
    ];
    level = level h.level;
    stderr_set = set_boolean c.stderr_log on (λ e. cc);
    syslog_set = set_boolean c.syslog_log off (λ e. cc);
    wire_set = set_boolean c.prioritize_wire on (λ e. cc);
    dnssec_set = set_boolean c.dnssec_enabled off (λ e. cc);
    resolv_conf_set = set_text c.resolv_conf_path _;
    resolver_set = set_text c.resolver_options _;
    ca_set = set_text c.certification_authority _;
  }
    where
      level :
          (c.log_level ≡ negsuc 0) ⊎ IsLevel c.log_level
          → IsLevel (if ltb_ℤ c.log_level (pos 0) then pos 6 else c.log_level)
      level k = ground (arith, k)

  -- The reading of the configuration ends, whatever the command line, the environment and the files
  -- are. If it succeeds, every option but the log file and the configuration file has a value; the level
  -- is one of syslog; the listen address has a known family;
  -- every static server has an address of a known family with a port that is not 0, a
  -- supported protocol, at least one routing domain, and networks whose prefix their family allows;
  -- and every RPZ zone has a name, and a master or a file. The memory for a network is of the right
  -- size, and the conversions are ones for which the documentation of `inet_pton` holds.
  pub parse_configuration-IsConfigured :
      (memory : ℕ → SockAddr)
      → ((n : ℕ) → IsStorage (memory n))
      → (files : Files) (env : Text → Option Text) (options : List GlobalOption)
      → Holds IsConfigured (parse_configuration net memory files env options)
  unfolding parse_configuration
  parse_configuration-IsConfigured memory storage files env options =
      on_done-Holds IsSound IsConfigured (first_config net env options) _
        (first-IsSound env options)
        (λ c _ h.
          on_done-Holds IsSound IsConfigured
            (parse_config_file net memory files (chosen_config_file c) empty_config) _
            (parse_config_file-IsSound laws memory storage files (chosen_config_file c) empty_config
              empty-IsSound)
            (λ d _ k. defaults-IsConfigured (merge_configs c d) (merge-IsSound c d h k)))
