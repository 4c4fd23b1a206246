-- ===== src/Options/File/Laws.antt =====
-- The files that `parse_config_file` of src/configuration_parsing/config_file.c reads.
use dnsconfd.Prelude.{
  ℕ, zero, suc, Bool, true, false, Option, none, some, List, [], ◌∷◌, Text, ◌==◌,
}
use dnsconfd.Ip.{SockAddr, Inet, InetLaws}
use dnsconfd.Ip.Laws.{IsStorage}
use dnsconfd.Config.{Config}
use dnsconfd.Config.Sound.{IsSound}
use dnsconfd.Yaml.{Outcome, done, failed, exhausted, on_done}
use dnsconfd.Yaml.Laws.{Holds, on_done-Holds, if-Holds}
use dnsconfd.Options.File.{
  Files, expanded, plain_path, make_dir_glob_pattern, has_wildcard, resolve_found,
  resolve_include_path, resolve_includes, file_error, max_include_files, files_loop,
  parse_config_file,
}
use dnsconfd.Options.File.Single.{parse_single_config_file}
use dnsconfd.Options.File.Single.Texts.{Parses}
use dnsconfd.Options.File.Single.Laws.{parse_single_config_file-Parses}

abbrev Ends : List Text → Type 0
Ends l = Unit

expanded-Ends : (o : Option (List Text)) (l : List Text) → Holds Ends (expanded o l)
unfolding expanded
expanded-Ends none l = tt
expanded-Ends (some m) l = tt

plain-Ends :
    (path : Text) (found : Option Bool) (l : List Text) → Holds Ends (plain_path path found l)
unfolding plain_path
plain-Ends path none l = tt
plain-Ends path (some b) l = tt

found-Ends :
    (files : Files) (path : Text) (found : Option Bool) (l : List Text)
    → Holds Ends (resolve_found files path found l)
unfolding resolve_found
found-Ends files path (some true) l = expanded-Ends (files.glob (make_dir_glob_pattern path)) l
found-Ends files path none l =
    if-Holds Ends (has_wildcard path) _ _ (λ _. expanded-Ends (files.glob path) l)
      (λ _. plain-Ends path none l)
found-Ends files path (some false) l =
    if-Holds Ends (has_wildcard path) _ _ (λ _. expanded-Ends (files.glob path) l)
      (λ _. plain-Ends path (some false) l)

resolve-Ends :
    (files : Files) (path : Text) (l : List Text) → Holds Ends (resolve_include_path files path l)
unfolding resolve_include_path
resolve-Ends files path l = found-Ends files path (files.is_directory path) l

includes-Ends : (files : Files) (paths l : List Text) → Holds Ends (resolve_includes files paths l)
unfolding resolve_includes
includes-Ends files [] l = tt
includes-Ends files (path ∷ paths) l =
    on_done-Holds Ends Ends (resolve_include_path files path l) _ (resolve-Ends files path l)
      (λ more _ _. includes-Ends files paths more)

module _ {net : Inet} (laws : InetLaws net) (memory : ℕ → SockAddr)
    (storage : (n : ℕ) → IsStorage (memory n)) (files : Files) where
  files_loop-IsSound :
      (left : ℕ) (todo : List Text) (config : Config)
      → IsSound config
      → Holds IsSound (files_loop net memory files left todo config)
  unfolding files_loop
  files_loop-IsSound zero [] config h = h
  files_loop-IsSound (suc left) [] config h = h
  files_loop-IsSound zero (file ∷ more) config h = tt
  files_loop-IsSound (suc left) (file ∷ more) config h =
      go (parse_single_config_file net memory files.read file config)
        (parse_single_config_file-Parses laws memory storage files.read file config h)
        (λ next l k. files_loop-IsSound left l next k)
    where
      go :
          (o : Outcome (Config × List Text))
          → Holds Parses o
          → ((next : Config) (l : List Text)
              → IsSound next
              → Holds IsSound (files_loop net memory files left l next))
          → Holds IsSound (elim o [
            | failed error ↦ failed (file_error (suc left == max_include_files) error)
            | exhausted ↦ exhausted
            | done (next, include_paths) ↦
                on_done
                  (resolve_includes files include_paths more)
                  (λ files_to_parse. files_loop net memory files left files_to_parse next)
          ])
      go (failed e) k f = tt
      go exhausted k f = k
      go (done (next, paths)) k f =
          on_done-Holds Ends IsSound (resolve_includes files paths more) _
            (includes-Ends files paths more) (λ l _ _. f next l k)

  -- The reading of the configuration file and of those that it includes ends, whatever they hold and
  -- however they include each other. If it succeeds on a sound configuration, the result is sound: every static
  -- server can be used, every zone has a name, and a master or a file, the listen address is one that
  -- the structure can hold, and the level is one of syslog or -1. The memory for a network is of
  -- the right size, and the conversions are ones for which the documentation of `inet_pton` holds.
  pub parse_config_file-IsSound :
      (path : Text) (config : Config)
      → IsSound config
      → Holds IsSound (parse_config_file net memory files path config)
  unfolding parse_config_file
  parse_config_file-IsSound path config h =
      files_loop-IsSound max_include_files (path ∷ []) config h
