-- ===== src/Options/Global/Precedence.antt =====
-- Which source of options decides in src/configuration_parsing/global_options.c.
use dnsconfd.Prelude.{
  ℕ, ◌≡◌, refl, sym, subst, Bool, true, false, Option, none, some, List, [], ◌∷◌, Text, Bool-cases,
  inl, inr, if◌then◌else◌,
}
use dnsconfd.Prelude.Int.{pos, ltb_ℤ}
use dnsconfd.Ip.{SockAddr, Inet, unspec, family_eq}
use dnsconfd.Config.{Config, ConfigBoolean, unset, on, off}
use dnsconfd.Yaml.{done}
use dnsconfd.Yaml.Laws.{on_done-eq-done}
use dnsconfd.Options.Environment.{parse_environment_variables}
use dnsconfd.Options.File.{Files, parse_config_file}
use dnsconfd.Options.Global.{
  GlobalOption, argp_parse, merge_text, merge_list, merge_boolean, merge_configs, empty_config,
  chosen_config_file, default_config_file, default_listen_address, with_defaults, first_config,
  parse_configuration,
}
use dnsconfd.Options.Global.Follows.{first_set, boolean_value, list_value, Follows}

text3 : (a b c : Option Text) → merge_text (merge_text a b) c ≡ first_set (a ∷ b ∷ c ∷ [])
text3 (some x) b c = refl
text3 none (some x) c = refl
text3 none none (some x) = refl
text3 none none none = refl

text4 :
    (a b c : Option Text) (t : Text)
    → merge_text (merge_text (merge_text a b) c) (some t) ≡ first_set (a ∷ b ∷ c ∷ some t ∷ [])
text4 (some x) b c t = refl
text4 none (some x) c t = refl
text4 none none (some x) t = refl
text4 none none none t = refl

list3 :
    {A : Type 0} (a b c : List A)
    → list_value (merge_list (merge_list a b) c)
      ≡ first_set (list_value a ∷ list_value b ∷ list_value c ∷ [])
list3 (x ∷ a) b c = refl
list3 [] (x ∷ b) c = refl
list3 [] [] (x ∷ c) = refl
list3 [] [] [] = refl

boolean4 :
    (a b c d : ConfigBoolean) (v : Bool)
    → boolean_value d ≡ some v
    → boolean_value (merge_boolean (merge_boolean (merge_boolean a b) c) d)
      ≡ first_set (boolean_value a ∷ boolean_value b ∷ boolean_value c ∷ some v ∷ [])
boolean4 on b c d v h = refl
boolean4 off b c d v h = refl
boolean4 unset on c d v h = refl
boolean4 unset off c d v h = refl
boolean4 unset unset on d v h = refl
boolean4 unset unset off d v h = refl
boolean4 unset unset unset d v h = h

abbrev value_unless : {A : Type 0} → (A → Bool) → A → Option A
value_unless p a = if p a then none else some a

-- `p` tells a value that is not set.
chosen4 :
    {A : Type 0} (p : A → Bool) (default : A → A) (a b c m n : A)
    → m ≡ (if p a then b else a)
    → n ≡ (if p m then c else m)
    → some (if p n then default n else n)
      ≡ first_set (value_unless p a ∷ value_unless p b ∷ value_unless p c ∷ some (default c) ∷ [])
chosen4 p default a b c m n e f = elim (Bool-cases (p a)) [
  | inl k ↦
      let mb : m ≡ b = rw (e, k) refl in
      elim (Bool-cases (p b)) [
        | inl l ↦
            let nc : n ≡ c = rw (f, mb, l) refl in
            elim (Bool-cases (p c)) [
              | inl o ↦ rw (nc, k, l, o) refl
              | inr o ↦ rw (nc, k, l, o) refl
            ]
        | inr l ↦ let nb : n ≡ b = rw (f, mb, l) refl in rw (nb, k, l) refl
      ]
  | inr k ↦
      let ma : m ≡ a = rw (e, k) refl in let na : n ≡ a = rw (f, ma, k) refl in rw (na, k) refl
]

done-injective : {A : Type 0} (a b : A) → done a ≡ done b → a ≡ b
done-injective a b e = cc

path :
    (a b : Option Text)
    → some (elim (merge_text a b) [ none ↦ default_config_file | some p ↦ p ])
      ≡ first_set (a ∷ b ∷ some default_config_file ∷ [])
path none none = refl
path none (some x) = refl
path (some x) b = refl

-- What is read before the files: the command line and the environment.
abbrev merged_first : Config → Config → Config
merged_first cli env = record (merge_configs cli env) {
  config_file = some (chosen_config_file (merge_configs cli env));
}

module _ (net : Inet) where
  follows :
      (cli env file : Config)
      → Follows net cli env file (with_defaults net (merge_configs (merged_first cli env) file))
  unfolding with_defaults merge_configs
  follows cli env file = record {
    file_log = text3 cli.file_log env.file_log file.file_log;
    resolv_conf_path = text4 cli.resolv_conf_path env.resolv_conf_path file.resolv_conf_path _;
    resolver_options = text4 cli.resolver_options env.resolver_options file.resolver_options _;
    certification_authority =
        text4 cli.certification_authority env.certification_authority file.certification_authority
          _;
    config_file = path cli.config_file env.config_file;
    static_servers = list3 cli.static_servers env.static_servers file.static_servers;
    rpz_zones = list3 cli.rpz_zones env.rpz_zones file.rpz_zones;
    log_level =
        chosen4 (λ n. ltb_ℤ n (pos 0)) (λ _. pos 6) cli.log_level env.log_level file.log_level _ _
          refl refl;
    listen_address =
        chosen4 (λ a. family_eq a.family unspec) (default_listen_address net) cli.listen_address
          env.listen_address file.listen_address _ _ refl refl;
    stderr_log = boolean4 cli.stderr_log env.stderr_log file.stderr_log on true refl;
    syslog_log = boolean4 cli.syslog_log env.syslog_log file.syslog_log off false refl;
    prioritize_wire =
        boolean4 cli.prioritize_wire env.prioritize_wire file.prioritize_wire on true refl;
    dnssec_enabled =
        boolean4 cli.dnssec_enabled env.dnssec_enabled file.dnssec_enabled off false refl;
  }

  first_config-eq-done :
      (env : Text → Option Text) (options : List GlobalOption) (config : Config)
      → first_config net env options ≡ done config
      → (cli given : Config) × (argp_parse net options empty_config ≡ done cli)
        × (parse_environment_variables net env empty_config ≡ done given)
        × (merged_first cli given ≡ config)
  unfolding first_config
  first_config-eq-done env options config h =
      let (cli, parsed, next) = on_done-eq-done (argp_parse net options empty_config) _ config h in
      let (given, read, merged) =
        on_done-eq-done (parse_environment_variables net env empty_config) _ config next in
      (cli, given, parsed, read, done-injective _ config merged)

  path_lem :
      (cli given : Config)
      → first_set (cli.config_file ∷ given.config_file ∷ some default_config_file ∷ [])
        ≡ some (chosen_config_file (merged_first cli given))
  unfolding merge_configs
  path_lem cli given = sym (path cli.config_file given.config_file)

  -- Where the configuration is accepted, the command line, the environment and the files have been read
  -- without an error, the files from the path that the first two give or the default one, and each option has its value
  -- from the command line, else from the environment, else from the files, else its default.
  pub parse_configuration-Follows :
      (memory : ℕ → SockAddr) (files : Files) (env : Text → Option Text)
      (options : List GlobalOption) (c : Config)
      → parse_configuration net memory files env options ≡ done c
      → (cli given file : Config) × (path : Text) × (argp_parse net options empty_config ≡ done cli)
        × (parse_environment_variables net env empty_config ≡ done given)
        × (first_set (cli.config_file ∷ given.config_file ∷ some default_config_file ∷ [])
            ≡ some path)
        × (parse_config_file net memory files path empty_config ≡ done file)
        × Follows net cli given file c
  unfolding parse_configuration
  parse_configuration-Follows memory files env options c h =
      let (config, first, rest) = on_done-eq-done (first_config net env options) _ c h in
      let (cli, given, parsed, read, merged) = first_config-eq-done env options config first in
      let (file, opened, last) =
        on_done-eq-done
          (parse_config_file net memory files (chosen_config_file config) empty_config) _ c rest in
      (
        cli,
        given,
        file,
        chosen_config_file config,
        parsed,
        read,
        subst
            (λ x.
              first_set (cli.config_file ∷ given.config_file ∷ some default_config_file ∷ [])
              ≡ some (chosen_config_file x))
            merged (path_lem cli given),
        opened,
        subst (Follows net cli given file) (done-injective _ c last) (
            subst (λ x. Follows net cli given file (with_defaults net (merge_configs x file)))
              merged (follows cli given file)),
      )
