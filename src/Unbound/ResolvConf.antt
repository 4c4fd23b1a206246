-- ===== src/Unbound/ResolvConf.antt =====
-- `write_resolv_conf` of src/dns_managers/unbound_manager.c.
pub mod Searches
use dnsconfd.Ip.{c_string, ip_text}
use dnsconfd.Prelude.{
  ℕ, ◌+◌, ◌≡◌, Bool, true, false, not, ◌&&◌, Option, none, some, List, [], ◌∷◌, ◌++◌, Text, text_eq,
  codes, if◌then◌else◌, ◌>>=◌, is_nil,
}
use dnsconfd.HashTable.{Table}
use dnsconfd.Server.{Server}
use dnsconfd.Config.{Config, Mode}
use dnsconfd.Env.{Env, World, tick, ask, emit, wrote, spoiled}
use dnsconfd.Unbound.Select.{get_used_servers}

abbrev pub member : Text → List Text → Bool
member d [] = false
member d (x ∷ xs) = if text_eq x d then true else member d xs

-- The search domains written so far, in the order of the file: `searches_table`.
unfoldable pub add_searches : List Text → List Text → List Text
add_searches seen [] = seen
add_searches seen (d ∷ ds) = add_searches (if member d seen then seen else seen ++ (d ∷ [])) ds

unfoldable pub searches_of_servers : List Text → List Server → List Text
unfolding add_searches
searches_of_servers seen [] = seen
searches_of_servers seen (s ∷ used) = searches_of_servers (add_searches seen s.search_domains) used

-- The loop over the table; `none` is the access through a NULL list.
unfoldable pub searches_of_table : Mode → List Text → Table (List Server) → Option (List Text)
unfolding searches_of_servers
searches_of_table mode seen [] = some seen
searches_of_table mode seen ((key, value) ∷ m) = get_used_servers value mode key >>= λ used.
    searches_of_table mode (searches_of_servers seen used) m

abbrev more_searches : List Text → Text
more_searches [] = codes "\n"
more_searches (d ∷ ds) = codes " " ++ (d ++ more_searches ds)

-- "search " before the first, a space before each other, a newline behind the last.
abbrev pub search_line : List Text → Text
search_line [] = []
search_line (d ∷ ds) = codes "search " ++ (d ++ more_searches ds)

abbrev options_line : Option Text → Text
options_line none = []
options_line (some options) = codes "options " ++ (options ++ codes "\n")

unfoldable pub resolv_conf_text : Env → Config → List Text → Text
resolv_conf_text env config searches =
    codes "#Generated by dnsconfd\n"
    ++ (search_line searches
        ++ (options_line config.resolver_options
            ++ (codes "nameserver " ++ (ip_text env.net config.listen_address ++ codes "\n"))))

-- Whether it returned 0, the backup, and the world.
abbrev pub Written : Type 0
Written = Bool × Option Text × World

-- `ferror`, then `fclose`.
abbrev pub close_resolv_conf : Env → Text → Text → Option Text → World → Written
close_resolv_conf env path text backup w =
    let (written, w1) = ask env w in
    let (closed, w2) = ask env w1 in
    if not written
    then (false, backup, emit (spoiled path) w1)
    else if not closed
    then (false, backup, emit (spoiled path) w2)
    else (true, backup, emit (wrote path text) w2)

unfoldable pub write_opened :
    Env → Config → Table (List Server) → Mode → Option Text → World → Option Written
unfolding resolv_conf_text searches_of_table
write_opened env config table mode backup w =
    let (opened, w1) = ask env w in
    if not opened
    then some (false, backup, w1)
    else (searches_of_table mode [] table >>= λ searches. some (
        close_resolv_conf env (c_string config.resolv_conf_path)
          (resolv_conf_text env config searches) backup w1))

unfoldable pub with_backup :
    Env → Config → Table (List Server) → Mode → Option Text → Option Text → World → Option Written
unfolding write_opened
with_backup env config table mode (some text) read w =
    write_opened env config table mode (some text) w
with_backup env config table mode none (some content) w =
    write_opened env config table mode (some content) (tick w)
with_backup env config table mode none none w = some (false, none, tick w)

-- The file is read only while there is no backup.
unfoldable pub write_resolv_conf :
    Env → Config → Table (List Server) → Option Text → Mode → World → Option Written
unfolding with_backup
write_resolv_conf env config domain_to_servers backup mode w =
    with_backup env config domain_to_servers mode backup
      (env.contents w.calls (c_string config.resolv_conf_path)) w
