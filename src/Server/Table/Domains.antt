-- ===== src/Server/Table/Domains.antt =====
-- The table of src/types/server_uri.c after one more server, and after the servers of one more list of
-- domains.
use mathlib.Core.List.{append-nil, append_assoc}
use dnsconfd.Prelude.{
  ◌≡◌, refl, sym, ap, ◌∙◌, false, inl, inr, Option, none, some, List, [], ◌∷◌, ◌++◌, Text, text_eq,
  text_eq_sound, if◌then◌else◌, Bool-cases, is_nil,
}
use dnsconfd.HashTable.{
  Table, lookup, insert, lookup-insert, HasDistinctKeys, insert-HasDistinctKeys, insert-AllValues,
}
use dnsconfd.Server.{Server}
use dnsconfd.Server.Table.{
  append_to, append_server, append_domains, servers_at, occurrences, HasServers,
}

-- The entry of a domain after one more server.
append_server-insert :
    (t : Table (List Server)) (d : Text) (s : Server)
    → append_server t d s ≡ insert d (servers_at d t ++ (s ∷ [])) t
unfolding append_server
append_server-insert t d s = go (lookup d t) refl
  where
    go :
        (o : Option (List Server))
        → lookup d t ≡ o
        → append_to o t d s ≡ insert d (elim o [ none ↦ [] | some l ↦ l ] ++ (s ∷ [])) t
    go none e = refl
    go (some []) e = refl
    go (some (x ∷ l)) e = refl

is_nil-snoc : (l : List Server) (s : Server) → is_nil (l ++ (s ∷ [])) ≡ false
is_nil-snoc [] s = refl
is_nil-snoc (x ∷ l) s = refl

append_server-HasServers :
    (t : Table (List Server)) (d : Text) (s : Server)
    → HasServers t
    → HasServers (append_server t d s)
append_server-HasServers t d s h =
    rw (append_server-insert t d s) (insert-AllValues _ d _ t (is_nil-snoc (servers_at d t) s) h)

servers_at-append_server :
    (k : Text) (t : Table (List Server)) (d : Text) (s : Server)
    → servers_at k (append_server t d s) ≡ servers_at k t ++ (if text_eq d k then s ∷ [] else [])
servers_at-append_server k t d s =
    rw (append_server-insert t d s, servers_at, lookup-insert d k (servers_at d t ++ (s ∷ [])) t)
      (elim (Bool-cases (text_eq d k)) [
        | inl e ↦ rw (e, text_eq_sound d k e)
        | inr e ↦ rw (e, append-nil)
      ])

pub append_domains-HasServers :
    (t : Table (List Server)) (ds : List Text) (s : Server)
    → HasServers t
    → HasServers (append_domains t ds s)
unfolding append_domains
append_domains-HasServers t [] s h = h
append_domains-HasServers t (d ∷ ds) s h =
    append_domains-HasServers (append_server t d s) ds s (append_server-HasServers t d s h)

pub append_domains-HasDistinctKeys :
    (t : Table (List Server)) (ds : List Text) (s : Server)
    → HasDistinctKeys t
    → HasDistinctKeys (append_domains t ds s)
unfolding append_domains
append_domains-HasDistinctKeys t [] s h = h
append_domains-HasDistinctKeys t (d ∷ ds) s h =
    append_domains-HasDistinctKeys (append_server t d s) ds s
      (rw (append_server-insert t d s) (insert-HasDistinctKeys d _ t h))

pub servers_at-append_domains :
    (k : Text) (t : Table (List Server)) (ds : List Text) (s : Server)
    → servers_at k (append_domains t ds s) ≡ servers_at k t ++ occurrences k ds s
unfolding append_domains
servers_at-append_domains k t [] s = sym (append-nil _)
servers_at-append_domains k t (d ∷ ds) s =
    servers_at-append_domains k (append_server t d s) ds s
    ∙ ap (λ l. l ++ occurrences k ds s) (servers_at-append_server k t d s)
    ∙ append_assoc (servers_at k t) (if text_eq d k then s ∷ [] else []) (occurrences k ds s)
