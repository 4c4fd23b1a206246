-- ===== src/Options/Global/Merging.antt =====
-- Configurations and their merge, for src/configuration_parsing/global_options.c.
use dnsconfd.Prelude.{
  ◌≡◌, ◌≢◌, ◌⊎◌, inl, refl, Bool, true, false, Option, none, some, List, [], ◌∷◌, Text, All,
  is_some, if◌then◌else◌,
}
use dnsconfd.Prelude.Int.{pos, negsuc, ltb_ℤ}
use dnsconfd.Ip.{unspec, family_eq}
use dnsconfd.Ip.Laws.{IsAddress, IsStorage, cleared-IsStorage}
use dnsconfd.Server.Valid.{IsComplete}
use dnsconfd.Config.{Config, ConfigBoolean, unset, on, off}
use dnsconfd.Config.Sound.{IsSound, IsZone, IsLevel}
use dnsconfd.Options.Global.{merge_text, merge_list, merge_boolean, merge_configs, empty_config}

-- A configuration that the daemon can run with: every option is set, and nothing is out of range.
pub record IsConfigured (c : Config) : Type 0 where
  pub static : All IsComplete c.static_servers
  pub zones : All IsZone c.rpz_zones
  pub listening : IsAddress c.listen_address
  pub level : IsLevel c.log_level
  pub stderr_set : c.stderr_log ≢ unset
  pub syslog_set : c.syslog_log ≢ unset
  pub wire_set : c.prioritize_wire ≢ unset
  pub dnssec_set : c.dnssec_enabled ≢ unset
  pub resolv_conf_set : is_some c.resolv_conf_path ≡ true
  pub resolver_set : is_some c.resolver_options ≡ true
  pub ca_set : is_some c.certification_authority ≡ true

pub empty-IsSound : IsSound empty_config
empty-IsSound = record { static = tt; zones = tt; stored = cleared-IsStorage; level = inl refl }

abbrev pub IfSound : Option Config → Type 0
IfSound none = Unit
IfSound (some c) = IsSound c

merge_list-All :
    {A : Type 0} (P : A → Type 0) (high low : List A)
    → All P high
    → All P low
    → All P (merge_list high low)
merge_list-All P [] low h l = l
merge_list-All P (x ∷ high) low h l = h

pub merge-IsSound :
    (high low : Config) → IsSound high → IsSound low → IsSound (merge_configs high low)
unfolding merge_configs
merge-IsSound high low h l = record {
  static = merge_list-All IsComplete high.static_servers low.static_servers h.static l.static;
  zones = merge_list-All IsZone high.rpz_zones low.rpz_zones h.zones l.zones;
  stored = pick (family_eq high.listen_address.family unspec);
  level = pick_level (ltb_ℤ high.log_level (pos 0));
}
  where
    pick : (b : Bool) → IsStorage (if b then low.listen_address else high.listen_address)
    pick true = l.stored
    pick false = h.stored

    pick_level :
        (b : Bool)
        → ((if b then low.log_level else high.log_level) ≡ negsuc 0)
          ⊎ IsLevel (if b then low.log_level else high.log_level)
    pick_level true = l.level
    pick_level false = h.level

pub set_boolean : (b c : ConfigBoolean) → c ≢ unset → merge_boolean b c ≢ unset
set_boolean unset c h = h
set_boolean on c h = λ e. cc
set_boolean off c h = λ e. cc

pub set_text : (o : Option Text) (t : Text) → is_some (merge_text o (some t)) ≡ true
set_text none t = refl
set_text (some x) t = refl
