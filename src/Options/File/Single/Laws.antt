-- ===== src/Options/File/Single/Laws.antt =====
-- What holds after `parse_single_config_file` of src/configuration_parsing/config_file.c.
use dnsconfd.Prelude.{
  ℕ, zero, suc, ◌≤◌, ◌≡◌, refl, Bool, true, false, Option, none, some, List, [], ◌∷◌, Text, text_eq,
  codes, arith, length, ltb,
}
use dnsconfd.Ip.{SockAddr, Inet, InetLaws, parse_ip_str}
use dnsconfd.Ip.Laws.{IsStorage, parse_ip_str-IsAddress, IsAddress-IsStorage}
use dnsconfd.Config.{Config}
use dnsconfd.Config.Sound.{same-IsSound, IsSound, address-IsSound, level-IsSound}
use dnsconfd.Yaml.{
  Event, scalar, sequence_start, sequence_end, mapping_start, stream_end, done, failed, on_done,
}
use dnsconfd.Yaml.Laws.{Holds, on_done-Holds, if-Holds}
use dnsconfd.Options.{parse_log_level}
use dnsconfd.Options.File.Servers.Pending.{Reached}
use dnsconfd.Options.File.Servers.{parse_static_servers}
use dnsconfd.Options.File.Servers.Laws.{parse_static_servers-Reached}
use dnsconfd.Options.File.Zones.{parse_rpz_zones}
use dnsconfd.Options.File.Zones.Laws.{parse_rpz_zones-Reached}
use dnsconfd.Options.File.Single.{
  duplicating_options, parse_include_list, Filing, with_config, file_sequence, file_field,
  file_scalar, file_event, file_loop, parse_single_config_file,
}
use dnsconfd.Options.File.Single.Texts.{
  Filed, FiledOn, parse_log_level-IsLevel, duplicating-IsSound, IncludesRead, includes-length,
  Parses,
}

module _ {net : Inet} (laws : InetLaws net) (memory : ℕ → SockAddr)
    (storage : (n : ℕ) → IsStorage (memory n)) where
  sequence-FiledOn :
      (f : Filing) (key : Text) (events : List Event)
      → Filed f
      → Holds (FiledOn events) (file_sequence net memory f key events)
  unfolding file_sequence
  sequence-FiledOn f key events h =
      if-Holds (FiledOn events) (text_eq key (codes "static_servers")) _ _
        (λ _.
          on_done-Holds (Reached events) (FiledOn events)
            (parse_static_servers net memory events f.config) _
            (parse_static_servers-Reached laws memory storage events f.config h)
            (λ (c, rest) _ k. k))
        (λ _.
          if-Holds (FiledOn events) (text_eq key (codes "rpz")) _ _
            (λ _.
              on_done-Holds (Reached events) (FiledOn events) (parse_rpz_zones events f.config) _
                (parse_rpz_zones-Reached events f.config h) (λ (c, rest) _ k. k))
            (λ _.
              if-Holds (FiledOn events) (text_eq key (codes "include")) _ _
                (λ _.
                  on_done-Holds (IncludesRead events) (FiledOn events)
                    (parse_include_list events f.include_paths) _
                    (includes-length events f.include_paths) (λ (c, rest) _ k. (h, k)))
                (λ _. (h, omega arith))))

  listen-Filed :
      (f : Filing) (o : Option SockAddr)
      → Filed f
      → ((a : SockAddr) → o ≡ some a → IsStorage a)
      → Holds Filed (elim o [
        | none ↦ failed (some (codes "Failed to parse listen address in configuration"))
        | some a ↦ done (with_config f (record f.config { listen_address = a }))
      ])
  listen-Filed f none h g = tt
  listen-Filed f (some a) h g = address-IsSound f.config a h (g a refl)

  field-Filed : (f : Filing) (key value : Text) → Filed f → Holds Filed (file_field net f key value)
  unfolding file_field
  field-Filed f key value h =
      if-Holds Filed (text_eq key (codes "log_level")) _ _
        (λ _. level-IsSound f.config (parse_log_level value) h (parse_log_level-IsLevel value))
        (λ _.
          if-Holds Filed (text_eq key (codes "stderr_log")) _ _
            (λ _. same-IsSound f.config _ h refl refl refl refl)
            (λ _.
              if-Holds Filed (text_eq key (codes "syslog_log")) _ _
                (λ _. same-IsSound f.config _ h refl refl refl refl)
                (λ _.
                  if-Holds Filed (text_eq key (codes "listen_address")) _ _
                    (λ _. listen-Filed f (parse_ip_str net value f.config.listen_address) h (λ a e.
                      IsAddress-IsStorage a
                        (parse_ip_str-IsAddress laws value f.config.listen_address a h.stored e)))
                    (λ _.
                      if-Holds Filed (text_eq key (codes "prioritize_wire")) _ _
                        (λ _. same-IsSound f.config _ h refl refl refl refl)
                        (λ _.
                          if-Holds Filed (text_eq key (codes "dnssec_enabled")) _ _
                            (λ _. same-IsSound f.config _ h refl refl refl refl)
                            (λ _.
                              if-Holds Filed (text_eq key (codes "include")) _ _ (λ _. h)
                                (λ _.
                                  on_done-Holds IsSound Filed
                                    (duplicating_options key value f.config) _
                                    (duplicating-IsSound key value f.config h) (λ c _ k. k))))))))

  scalar-Filed :
      (f : Filing) (value : Text) (b : Bool) → Filed f → Holds Filed (file_scalar net f value b)
  unfolding file_scalar
  scalar-Filed f value true h = h
  scalar-Filed f value false h = go f.current_key
    where
      go :
          (k : Option Text)
          → Holds Filed (elim k [ none ↦ failed none | some key ↦ file_field net f key value ])
      go none = tt
      go (some key) = field-Filed f key value h

  event-FiledOn :
      (e : Event) (f : Filing) (events : List Event)
      → Filed f
      → Holds (FiledOn events) (file_event net memory e f events)
  unfolding file_event
  event-FiledOn mapping_start f events h =
      if-Holds (FiledOn events) (ltb 1 (suc f.depth)) _ _ (λ _. tt) (λ _. (h, omega arith))
  event-FiledOn sequence_start f events h = go f.current_key
    where
      go :
          (k : Option Text)
          → Holds (FiledOn events) (elim k [
            | none ↦ done (f, events)
            | some key ↦ file_sequence net memory f key events
          ])
      go none = (h, omega arith)
      go (some key) = sequence-FiledOn f key events h
  event-FiledOn (scalar value) f events h =
      on_done-Holds Filed (FiledOn events) (file_scalar net f value f.expect_key) _
        (scalar-Filed f value f.expect_key h) (λ t _ k. (k, omega arith))
  event-FiledOn sequence_end f events h = (h, omega arith)
  event-FiledOn _ f events h = (h, omega arith)

  file_loop-round :
      (fuel : ℕ) (e : Event) (events : List Event) (f : Filing)
      → length events ≤ fuel
      → Filed f
      → ((rest : List Event) (next : Filing)
          → length rest ≤ fuel
          → Filed next
          → Holds Parses (file_loop net memory fuel rest next))
      → Holds Parses (
          on_done
            (file_event net memory e f events)
            (λ (next, rest). file_loop net memory fuel rest next))
  file_loop-round fuel e events f l h g =
      on_done-Holds (FiledOn events) Parses (file_event net memory e f events) _
        (event-FiledOn e f events h) (λ (next, rest) _ (k, m). g rest next (omega (arith, m, l)) k)

  file_loop-Parses :
      (fuel : ℕ) (events : List Event) (f : Filing)
      → length events ≤ fuel
      → Filed f
      → Holds Parses (file_loop net memory fuel events f)
  unfolding file_loop
  file_loop-Parses fuel [] f l h = tt
  file_loop-Parses fuel (stream_end ∷ events) f l h = h
  file_loop-Parses zero (sequence_start ∷ events) f l h = absurd (omega (arith, l))
  file_loop-Parses zero (e ∷ events) f l h = absurd (omega (arith, l))
  file_loop-Parses (suc fuel) (sequence_start ∷ events) f l h =
      file_loop-round fuel sequence_start events f (omega (arith, l)) h
        (λ rest next m k. file_loop-Parses fuel rest next m k)
  file_loop-Parses (suc fuel) (e ∷ events) f l h =
      file_loop-round fuel e events f (omega (arith, l)) h
        (λ rest next m k. file_loop-Parses fuel rest next m k)

  pub parse_single_config_file-Parses :
      (read : Text → Option (List Event)) (path : Text) (config : Config)
      → IsSound config
      → Holds Parses (parse_single_config_file net memory read path config)
  unfolding parse_single_config_file
  parse_single_config_file-Parses read path config h = go (read path)
    where
      go :
          (o : Option (List Event))
          → Holds Parses (elim o [
            | none ↦ failed (some (codes "Failed to open configuration file"))
            | some events ↦ file_loop net memory (length events) events (record {
              config = config;
              include_paths = [];
              current_key = none;
              depth = 0;
              expect_key = true;
            })
          ])
      go none = tt
      go (some events) = file_loop-Parses (length events) events _ (omega arith) h
