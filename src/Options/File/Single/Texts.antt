-- ===== src/Options/File/Single/Texts.antt =====
-- The options of src/configuration_parsing/config_file.c that are texts, and the levels.
use dnsconfd.Prelude.{◌≤◌, ◌≡◌, ◌⊎◌, refl, List, [], ◌∷◌, ◌++◌, Text, text_eq, codes, arith, length}
use dnsconfd.Prelude.Int.{negsuc}
use dnsconfd.Config.{Config}
use dnsconfd.Config.Sound.{same-IsSound, IsSound, IsLevel}
use dnsconfd.Yaml.{Event, scalar, sequence_start, sequence_end}
use dnsconfd.Yaml.Laws.{Holds, if-Holds, weaken-Holds}
use dnsconfd.Options.{parse_log_level}
use dnsconfd.Options.File.Single.{duplicating_options, parse_include_list, Filing}

-- The configuration so far is sound.
abbrev pub Filed : Filing → Type 0
Filed f = IsSound f.config

abbrev pub FiledOn : List Event → Filing × List Event → Type 0
FiledOn events (f, rest) = IsSound f.config × (length rest ≤ length events)

pub parse_log_level-IsLevel :
    (t : Text) → (parse_log_level t ≡ negsuc 0) ⊎ IsLevel (parse_log_level t)
unfolding parse_log_level
parse_log_level-IsLevel t = ground arith

pub duplicating-IsSound :
    (key value : Text) (c : Config) → IsSound c → Holds IsSound (duplicating_options key value c)
unfolding duplicating_options
duplicating-IsSound key value c h =
    if-Holds IsSound (text_eq key (codes "file_log")) _ _
      (λ _. same-IsSound c _ h refl refl refl refl)
      (λ _.
        if-Holds IsSound (text_eq key (codes "resolv_conf_path")) _ _
          (λ _. same-IsSound c _ h refl refl refl refl)
          (λ _.
            if-Holds IsSound (text_eq key (codes "resolver_options")) _ _
              (λ _. same-IsSound c _ h refl refl refl refl)
              (λ _.
                if-Holds IsSound (text_eq key (codes "certification_authority")) _ _
                  (λ _. same-IsSound c _ h refl refl refl refl) (λ _. tt))))

abbrev pub IncludesRead : List Event → List Text × List Event → Type 0
IncludesRead events (paths, rest) = length rest ≤ length events

pub includes-length :
    (events : List Event) (acc : List Text)
    → Holds (IncludesRead events) (parse_include_list events acc)
unfolding parse_include_list
includes-length [] acc = tt
includes-length (scalar t ∷ events) acc =
    weaken-Holds (IncludesRead events) (IncludesRead (scalar t ∷ events))
      (parse_include_list events (acc ++ (t ∷ []))) (λ (p, rest) l. omega (arith, l))
      (includes-length events (acc ++ (t ∷ [])))
includes-length (sequence_end ∷ events) acc = omega arith
includes-length (sequence_start ∷ events) acc =
    weaken-Holds (IncludesRead events) (IncludesRead (sequence_start ∷ events))
      (parse_include_list events acc) (λ (p, rest) l. omega (arith, l)) (includes-length events acc)
includes-length (e ∷ events) acc =
    weaken-Holds (IncludesRead events) (IncludesRead (e ∷ events)) (parse_include_list events acc)
      (λ (p, rest) l. omega (arith, l)) (includes-length events acc)

abbrev pub Parses : Config × List Text → Type 0
Parses (config, paths) = IsSound config
