-- ===== src/Options/File.antt =====
-- The configuration file and those that it includes: `parse_config_file` of
-- src/configuration_parsing/config_file.c, with libyaml, `stat` and `glob` as parameters. Memory does
-- not run out.
pub mod Servers
pub mod Zones
pub mod Single
pub mod Laws
use dnsconfd.Prelude.{
  ℕ, zero, suc, Bool, true, false, ◌||◌, ◌==◌, Option, none, some, List, [], ◌∷◌, ◌++◌, Text, codes,
  if◌then◌else◌,
}
use dnsconfd.Ip.{SockAddr, Inet}
use dnsconfd.Config.{Config}
use dnsconfd.Yaml.{Event, Outcome, done, failed, exhausted, on_done}
use dnsconfd.Options.File.Single.{parse_single_config_file}

-- The file system, as the program asks it: the events of a file that can be opened; of a path that
-- `stat` finds, whether it is a directory; the matches of a pattern, none of them for GLOB_NOMATCH, or
-- `none` for another error of `glob`.
pub record Files : Type 0 where
  pub read : Text → Option (List Event)
  pub is_directory : Text → Option Bool
  pub glob : Text → Option (List Text)

ends_with_slash : Text → Bool
ends_with_slash [] = false
ends_with_slash (c ∷ []) = c == b'/'
ends_with_slash (c ∷ d ∷ path) = ends_with_slash (d ∷ path)

unfoldable pub make_dir_glob_pattern : Text → Text
unfolding ends_with_slash
make_dir_glob_pattern dir_path =
    dir_path ++ (if ends_with_slash dir_path then codes "*.conf" else codes "/*.conf")

-- `strpbrk(path, "*?[") != NULL`.
unfoldable pub has_wildcard : Text → Bool
has_wildcard [] = false
has_wildcard (c ∷ path) = c == b'*' || (c == b'?' || (c == b'[' || has_wildcard path))

expanded : Option (List Text) → List Text → Outcome (List Text)
expanded none files_to_parse = failed (some (codes "Failed to expand include path"))
expanded (some matches) files_to_parse = done (files_to_parse ++ matches)

-- What is neither a directory nor a pattern: a path that is not found is passed over.
plain_path : Text → Option Bool → List Text → Outcome (List Text)
plain_path include_path none files_to_parse = done files_to_parse
plain_path include_path (some _) files_to_parse = done (files_to_parse ++ (include_path ∷ []))

unfoldable pub resolve_found : Files → Text → Option Bool → List Text → Outcome (List Text)
unfolding make_dir_glob_pattern has_wildcard expanded plain_path
resolve_found files include_path (some true) files_to_parse =
    expanded (files.glob (make_dir_glob_pattern include_path)) files_to_parse
resolve_found files include_path found files_to_parse =
    if has_wildcard include_path
    then expanded (files.glob include_path) files_to_parse
    else plain_path include_path found files_to_parse

unfoldable pub resolve_include_path : Files → Text → List Text → Outcome (List Text)
unfolding resolve_found
resolve_include_path files include_path files_to_parse =
    resolve_found files include_path (files.is_directory include_path) files_to_parse

-- The loop over the paths that a file includes.
unfoldable pub resolve_includes : Files → List Text → List Text → Outcome (List Text)
unfolding resolve_include_path
resolve_includes files [] files_to_parse = done files_to_parse
resolve_includes files (path ∷ paths) files_to_parse =
    on_done (resolve_include_path files path files_to_parse)
      (λ more. resolve_includes files paths more)

-- The error of the first file is passed on; that of another is only printed.
file_error : Bool → Option Text → Option Text
file_error true error = error
file_error false error = some (codes "Error while processing included configuration file")

abbrev pub max_include_files : ℕ
max_include_files = 1000

-- The loop over the files; `left` is how many of them may still be read.
unfoldable pub files_loop : Inet → (ℕ → SockAddr) → Files → ℕ → List Text → Config → Outcome Config
unfolding parse_single_config_file resolve_includes file_error
files_loop net memory files left [] config = done config
files_loop net memory files zero (file ∷ more) config =
    failed (some (codes "Too many configuration files included, possible cycle"))
files_loop net memory files (suc left) (file ∷ more) config =
    elim (parse_single_config_file net memory files.read file config) [
      | failed error ↦ failed (file_error (suc left == max_include_files) error)
      | exhausted ↦ exhausted
      | done (next, include_paths) ↦
          on_done (resolve_includes files include_paths more)
            (λ files_to_parse. files_loop net memory files left files_to_parse next)
    ]

unfoldable pub parse_config_file : Inet → (ℕ → SockAddr) → Files → Text → Config → Outcome Config
unfolding files_loop
parse_config_file net memory files path config =
    files_loop net memory files max_include_files (path ∷ []) config
