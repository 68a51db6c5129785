-- ===== src/Bridge/Config.antt =====
-- internal/bridge/config.go: the configuration of bridge mode. A duration is in nanoseconds.
pub mod Accepted
use plexd.Base.{
  ℕ, String, List, [], ◌∷◌, Bool, true, false, not, ◌&&◌, ◌||◌, ◌==◌, Option, none, some,
  if◌then◌else◌,
}
use plexd.Base.Int.{ℤ, pos, negsuc, eqb_ℤ, leb_ℤ, ltb_ℤ}

pub record Config : Type 0 where
  pub enabled : Bool
  pub access_interface : String
  pub access_subnets : List String
  pub enable_nat : Option Bool
  pub relay_enabled : Bool
  pub relay_listen_port : ℤ
  pub max_relay_sessions : ℤ
  pub session_ttl : ℤ
  pub user_access_enabled : Bool
  pub user_access_interface_name : String
  pub user_access_listen_port : ℤ
  pub max_access_peers : ℤ
  pub ingress_enabled : Bool
  pub max_ingress_rules : ℤ
  pub ingress_dial_timeout : ℤ
  pub site_to_site_enabled : Bool
  pub site_to_site_interface_prefix : String
  pub site_to_site_listen_port : ℤ
  pub max_site_to_site_tunnels : ℤ

unfoldable pub nat_enabled : Config → Bool
nat_enabled c = elim c.enable_nat [ none ↦ true | some b ↦ b ]

abbrev pub or_default : ℤ → ℕ → ℤ
or_default n d = if eqb_ℤ n (pos 0) then pos d else n

abbrev pub or_default_name : String → String → String
or_default_name s d = if s == "" then d else s

unfoldable pub apply_defaults : Config → Config
apply_defaults c = record c {
  relay_listen_port = or_default c.relay_listen_port 51821;
  max_relay_sessions = or_default c.max_relay_sessions 100;
  session_ttl = or_default c.session_ttl 300000000000;
  user_access_interface_name = or_default_name c.user_access_interface_name "wg-access";
  user_access_listen_port = or_default c.user_access_listen_port 51822;
  max_access_peers = or_default c.max_access_peers 50;
  max_ingress_rules = or_default c.max_ingress_rules 20;
  ingress_dial_timeout = or_default c.ingress_dial_timeout 10000000000;
  site_to_site_interface_prefix = or_default_name c.site_to_site_interface_prefix "wg-s2s-";
  site_to_site_listen_port = or_default c.site_to_site_listen_port 51823;
  max_site_to_site_tunnels = or_default c.max_site_to_site_tunnels 10;
}

pub data ConfigError : Type 0 where
  relay_needs_bridge user_access_needs_bridge ingress_needs_bridge site_to_site_needs_bridge :
      ConfigError
  no_access_interface no_access_subnet : ConfigError
  invalid_cidr : String → ConfigError
  bad_relay_port bad_relay_sessions bad_session_ttl : ConfigError
  bad_user_access_port no_user_access_interface bad_access_peers : ConfigError
  bad_ingress_rules bad_dial_timeout : ConfigError
  bad_site_to_site_port no_site_to_site_prefix bad_site_to_site_tunnels : ConfigError

abbrev pub bad_port : ℤ → Bool
bad_port p = ltb_ℤ p 1 || not (leb_ℤ p 65535)

-- The checks that follow one another, each only if those before it pass.
infixr 5 ◌then_check◌
abbrev pub ◌then_check◌ : Option ConfigError → Option ConfigError → Option ConfigError
none then_check rest = rest
some e then_check rest = some e

abbrev pub refuse : Bool → ConfigError → Option ConfigError
refuse bad e = if bad then some e else none

-- What net.ParseCIDR accepts is a parameter.
module _ (is_cidr : String → Bool) where
  unfoldable pub check_subnets : List String → Option ConfigError
  check_subnets [] = none
  check_subnets (s ∷ ss) = if not (is_cidr s) then some (invalid_cidr s) else check_subnets ss

  unfoldable pub check_relay : Config → Option ConfigError
  check_relay c =
      if not c.relay_enabled
      then none
      else refuse (bad_port c.relay_listen_port) bad_relay_port
        then_check refuse (leb_ℤ c.max_relay_sessions 0) bad_relay_sessions
        then_check refuse (ltb_ℤ c.session_ttl 30000000000) bad_session_ttl

  unfoldable pub check_user_access : Config → Option ConfigError
  check_user_access c =
      if not c.user_access_enabled
      then none
      else refuse (bad_port c.user_access_listen_port) bad_user_access_port
        then_check refuse (c.user_access_interface_name == "") no_user_access_interface
        then_check refuse (leb_ℤ c.max_access_peers 0) bad_access_peers

  unfoldable pub check_ingress : Config → Option ConfigError
  check_ingress c =
      if not c.ingress_enabled
      then none
      else refuse (leb_ℤ c.max_ingress_rules 0) bad_ingress_rules
        then_check refuse (ltb_ℤ c.ingress_dial_timeout 1000000000) bad_dial_timeout

  unfoldable pub check_site_to_site : Config → Option ConfigError
  check_site_to_site c =
      if not c.site_to_site_enabled
      then none
      else refuse (bad_port c.site_to_site_listen_port) bad_site_to_site_port
        then_check refuse (c.site_to_site_interface_prefix == "") no_site_to_site_prefix
        then_check refuse (leb_ℤ c.max_site_to_site_tunnels 0) bad_site_to_site_tunnels

  -- The checks of an enabled bridge.
  unfoldable pub check_enabled : Config → Option ConfigError
  check_enabled c =
      refuse (c.access_interface == "") no_access_interface
      then_check refuse (elim c.access_subnets [ [] ↦ true | _ ∷ _ ↦ false ]) no_access_subnet
      then_check check_subnets c.access_subnets
      then_check check_relay c
      then_check check_user_access c
      then_check check_ingress c
      then_check check_site_to_site c

  unfoldable pub validate : Config → Option ConfigError
  validate c =
      refuse (c.relay_enabled && not c.enabled) relay_needs_bridge
      then_check refuse (c.user_access_enabled && not c.enabled) user_access_needs_bridge
      then_check refuse (c.ingress_enabled && not c.enabled) ingress_needs_bridge
      then_check refuse (c.site_to_site_enabled && not c.enabled) site_to_site_needs_bridge
      then_check (if not c.enabled then none else check_enabled c)
