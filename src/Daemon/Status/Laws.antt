-- ===== src/Daemon/Status/Laws.antt =====
-- What the reply to a status call of src/dbus_server.c tells of the domains.
use mathlib.Core.Option.{some-injective}
use dnsconfd.Prelude.{
  ◌≡◌, refl, subst, sym, ap, ◌∙◌, ◌>>=◌, >>=-eq-some, Bool, true, false, not, inl, inr, Option,
  none, some, List, [], ◌∷◌, Text, text_eq, text_eq_sound, text_eq_iff, codes, arith, if◌then◌else◌,
  Bool-cases,
}
use dnsconfd.HashTable.{Table, lookup, HasDistinctKeys}
use dnsconfd.Ip.{Inet}
use dnsconfd.Server.{Server}
use dnsconfd.Json.{
  Json, string, array, object, Items, no_items, item, Fields, no_fields, entry, json_object_get,
  json_object_set_new, strings,
}
use dnsconfd.Server.Table.{server_list_to_hash_table}
use dnsconfd.Server.Table.Laws.{server_list_to_hash_table_lem}
use dnsconfd.Env.{Env, World}
use dnsconfd.Unbound.Update.{
  Updated, failed, needs_reload, updated, used_table, with_ca, finish, apply_changes, update,
}
use dnsconfd.Unbound.Update.Used.{given_servers, or_before, used_table_lem}
use dnsconfd.Fsm.Actions.{update_dns_manager, after_update}
use dnsconfd.Context.{Context, success, failure, reload}
use dnsconfd.Daemon.Status.{
  uri_str, uri_strs, set_domains, construct_cache_config_status, config_to_json,
}

get-set :
    (key other : Text) (value : Json) (m : Fields)
    → json_object_get other (json_object_set_new key value m)
      ≡ (if text_eq key other then some value else json_object_get other m)
unfolding json_object_get json_object_set_new
get-set key other value no_fields = refl
get-set key other value (entry k v m) = ground (
  arith,
  text_eq_iff key other,
  text_eq_iff k key,
  text_eq_iff k other,
  get-set key other value m,
)

-- The texts of the servers that the table has for a domain.
abbrev told_servers : Inet → Option (List Server) → Option Json
told_servers net none = none
told_servers net (some l) = some (array (strings (uri_strs net l)))

set_domains_lem :
    (net : Inet) (domain : Text) (table : Table (List Server)) (m : Fields)
    → HasDistinctKeys table
    → json_object_get domain (set_domains net table m)
      ≡ or_before (told_servers net (lookup domain table)) (json_object_get domain m)
unfolding set_domains lookup
set_domains_lem net domain [] m h = refl
set_domains_lem net domain ((key, value) ∷ table) m h =
    set_domains_lem net domain table _ h.1 ∙ step
  where
    new : Json
    new = array (strings (uri_strs net value))

    step :
        or_before
          (told_servers net (lookup domain table))
          (json_object_get domain (json_object_set_new key new m))
        ≡ or_before
            (told_servers net (if text_eq key domain then some value else lookup domain table))
            (json_object_get domain m)
    step = elim (Bool-cases (text_eq key domain)) [
      | inl e ↦
          let absent : lookup domain table ≡ none =
            subst (λ d. lookup d table ≡ none) (text_eq_sound key domain e) h.0 in
          rw (get-set key domain new m, e, absent) refl
      | inr e ↦ rw (get-set key domain new m, e) refl
    ]

cache_lem :
    (net : Inet) (domain : Text) (table : Table (List Server))
    → HasDistinctKeys table
    → json_object_get domain (construct_cache_config_status net (some table))
      ≡ told_servers net (lookup domain table)
unfolding construct_cache_config_status json_object_get
cache_lem net domain table h =
    set_domains_lem net domain table no_fields h ∙ or_none (told_servers net (lookup domain table))
  where
    or_none : (o : Option Json) → or_before o none ≡ o
    or_none none = refl
    or_none (some v) = refl

abbrev fields_of : Json → Option Fields
fields_of (object m) = some m
fields_of _ = none

-- What the reply says under a key of its object under `cache_config`.
abbrev pub told_under : Text → Json → Option Json
told_under domain reply = fields_of reply >>= λ m.
    json_object_get (codes "cache_config") m >>= λ cache.
    fields_of cache >>= λ domains. json_object_get domain domains

-- The items are the texts of the servers, in their order.
abbrev pub AreTexts : Inet → List Server → Items → Type 0
AreTexts net [] no_items = Unit
AreTexts net (s ∷ l) (item (string t) items) = (t ≡ uri_str net s) × AreTexts net l items
AreTexts net _ _ = ⊥

-- What is told of a domain: a list of texts, or nothing where no server was given.
abbrev pub IsTold : Inet → Option (List Server) → Option Json → Type 0
IsTold net none told = told ≡ none
IsTold net (some l) told = (items : Items) × (told ≡ some (array items)) × AreTexts net l items

texts_lem : (net : Inet) (l : List Server) → AreTexts net l (strings (uri_strs net l))
unfolding strings
texts_lem net [] = tt
texts_lem net (s ∷ l) = (refl, texts_lem net l)

told_lem : (net : Inet) (o : Option (List Server)) → IsTold net o (told_servers net o)
told_lem net none = refl
told_lem net (some l) = (strings (uri_strs net l), refl, texts_lem net l)

under_lem :
    (net : Inet) (ctx : Context) (table : Table (List Server)) (domain : Text)
    → ctx.current_unbound_domain_to_servers ≡ some table
    → HasDistinctKeys table
    → told_under domain (config_to_json net ctx) ≡ told_servers net (lookup domain table)
unfolding config_to_json json_object_get json_object_set_new text_eq
under_lem net ctx table domain e h = rw e (cache_lem net domain table h)

-- The result carries the new table, if it carries one.
abbrev Carries : Table (List Server) → Updated → Type 0
Carries new failed = Unit
Carries new needs_reload = Unit
Carries new (updated t) = t ≡ new

with_ca-updated :
    (env : Env) (c : Context) (new : Table (List Server)) (p : Option Text × World)
    (u : Updated × World)
    → with_ca env c new p ≡ some u
    → Carries new u.0
unfolding with_ca finish
with_ca-updated env c new (none, w) u h = subst (λ x. Carries new x.0) (some-injective _ u h) tt
with_ca-updated env c new (some ca, w) u h =
    let (ca', e, k) = >>=-eq-some c.effective_ca _ h in
    elim (Bool-cases (not (text_eq ca ca'))) [
      | inl x ↦ subst (λ y. Carries new y.0) (some-injective (needs_reload, w) u (rw x at k)) tt
      | inr x ↦
          subst (λ y. Carries new y.0) (some-injective _ u (rw x at k))
            (finish_lem (apply_changes env c.current_unbound_domain_to_servers new w))
    ]
  where
    finish_lem : (r : Bool × World) → Carries new (finish new r).0
    finish_lem (true, w) = refl
    finish_lem (false, w) = tt

updated_lem :
    (c : Context) (new : Table (List Server)) (u : Updated × World) (d : Context)
    → after_update c u ≡ (success, d)
    → Carries new u.0
    → d.current_unbound_domain_to_servers ≡ some new
updated_lem c new (failed, w) d h k = absurd (let q : failure ≡ success = ap (λ x. x.0) h in cc)
updated_lem c new (needs_reload, w) d h k =
    absurd (let q : reload ≡ success = ap (λ x. x.0) h in cc)
updated_lem c new (updated t, w) d h k =
    sym (ap (λ x. x.1.current_unbound_domain_to_servers) h) ∙ ap some k

-- An update of Unbound that succeeds stores the table of the servers that are used.
stored_lem :
    (env : Env) (c d : Context) (table : Table (List Server))
    → c.current_domain_to_servers ≡ some table
    → update_dns_manager env c ≡ some (success, d)
    → (new : Table (List Server)) × (used_table c.resolution_mode table ≡ some new)
      × (d.current_unbound_domain_to_servers ≡ some new)
unfolding update_dns_manager update
stored_lem env c d table q h =
    let (u, e, k) = >>=-eq-some (update env c) _ h in
    let (t, e1, h1) = >>=-eq-some c.current_domain_to_servers _ e in
    let (new, e2, h2) = >>=-eq-some (used_table c.resolution_mode t) _ h1 in
    let same : t ≡ table = some-injective t table (sym e1 ∙ q) in
    (
      new,
      subst (λ x. used_table c.resolution_mode x ≡ some new) same e2,
      updated_lem c new u d (some-injective (after_update c u) (success, d) k)
          (with_ca-updated env c new _ u h2),
    )

-- After an update of Unbound that succeeded, the reply to a status call tells for every domain exactly
-- the servers that the selection uses of those that the table has for it, in their order, each by its
-- text, and nothing for a domain of which no server is used. The table was built from a list of
-- servers.
pub config_to_json-IsTold :
    (env : Env) (c d : Context) (servers : List Server) (table : Table (List Server))
    (domain : Text)
    → server_list_to_hash_table env.sort servers ≡ some table
    → c.current_domain_to_servers ≡ some table
    → update_dns_manager env c ≡ some (success, d)
    → IsTold env.net
        (given_servers domain c.resolution_mode (lookup domain table))
        (told_under domain (config_to_json env.net d))
config_to_json-IsTold env c d servers table domain built at done =
    let (new, used, stored) = stored_lem env c d table at done in
    let (distinct, entries) =
      used_table_lem c.resolution_mode table new
        (server_list_to_hash_table_lem env.sort servers table built).0 used in
    subst (λ o. IsTold env.net o (told_under domain (config_to_json env.net d))) (entries domain)
      (subst (IsTold env.net (lookup domain new))
        (sym (under_lem env.net d new domain stored distinct))
        (told_lem env.net (lookup domain new)))
