-- ===== src/Bridge/Config/Accepted.antt =====
-- internal/bridge/config.go: a configuration with its defaults, and what Validate says of it.
use plexd.Base.{
  ℕ, String, List, [], ◌∷◌, Bool, true, false, ◌==◌, ◌<◌, ◌≤◌, none, All, length, arith, ◌≡◌, ◌⊎◌,
  inl, inr, refl, Bool-cases,
}
use plexd.Base.Int.{ℤ, pos}
use plexd.Bridge.Config.{
  Config, or_default_name, apply_defaults, check_subnets, check_relay, check_user_access,
  check_ingress, check_site_to_site, check_enabled, validate,
}

-- A number that is not negative.
abbrev pub NotNegative : ℤ → Type 0
NotNegative p = (n : ℕ) × (p ≡ pos n)

abbrev pub AtMost : ℕ → ℤ → Type 0
AtMost hi p = (n : ℕ) × (p ≡ pos n) × (n ≤ hi)

-- Left at zero, or at least so much.
abbrev pub ZeroOrFrom : ℕ → ℤ → Type 0
ZeroOrFrom lo p = (n : ℕ) × (p ≡ pos n) × ((n ≡ 0) ⊎ (lo ≤ n))

-- What the operator has to give; each limit, port and duration may be left at zero.
pub record IsGiven (is_cidr : String → Bool) (c : Config) : Type 0 where
  pub bridge : c.enabled ≡ true
  pub iface : (c.access_interface == "") ≡ false
  pub some_subnet : 0 < length c.access_subnets
  pub cidrs : All (λ s. is_cidr s ≡ true) c.access_subnets
  pub relay_port : AtMost 65535 c.relay_listen_port
  pub relay_sessions : NotNegative c.max_relay_sessions
  pub ttl : ZeroOrFrom 30000000000 c.session_ttl
  pub access_port : AtMost 65535 c.user_access_listen_port
  pub access_peers : NotNegative c.max_access_peers
  pub ingress_rules : NotNegative c.max_ingress_rules
  pub dial_timeout : ZeroOrFrom 1000000000 c.ingress_dial_timeout
  pub tunnel_port : AtMost 65535 c.site_to_site_listen_port
  pub tunnels : NotNegative c.max_site_to_site_tunnels

named : (s d : String) → (d == "") ≡ false → ((or_default_name s d) == "") ≡ false
named s d h = elim (Bool-cases (s == "")) [
  | inl empty ↦ rw (empty, or_default_name) h
  | inr given ↦ rw (given, or_default_name) given
]

module _ (is_cidr : String → Bool) (c : Config) (g : IsGiven is_cidr c) where
  relay_passes : check_relay is_cidr (apply_defaults c) ≡ none
  unfolding check_relay apply_defaults
  relay_passes = ground (arith, g.relay_port, g.relay_sessions, g.ttl)

  access_passes : check_user_access is_cidr (apply_defaults c) ≡ none
  unfolding check_user_access apply_defaults
  access_passes =
      ground
        (arith, g.access_port, g.access_peers, named c.user_access_interface_name "wg-access" refl)

  ingress_passes : check_ingress is_cidr (apply_defaults c) ≡ none
  unfolding check_ingress apply_defaults
  ingress_passes = ground (arith, g.ingress_rules, g.dial_timeout)

  tunnels_pass : check_site_to_site is_cidr (apply_defaults c) ≡ none
  unfolding check_site_to_site apply_defaults
  tunnels_pass =
      ground (arith, g.tunnel_port, g.tunnels, named c.site_to_site_interface_prefix "wg-s2s-" refl)

subnets_pass :
    (is_cidr : String → Bool) (ss : List String)
    → All (λ s. is_cidr s ≡ true) ss
    → check_subnets is_cidr ss ≡ none
unfolding check_subnets
subnets_pass is_cidr [] a = refl
subnets_pass is_cidr (s ∷ ss) a = rw a.0 (subnets_pass is_cidr ss a.1)

has_subnet :
    (ss : List String)
    → 0 < length ss
    → elim ss as (λ _. Bool) [ [] ↦ true | _ ∷ _ ↦ false ] ≡ false
has_subnet [] h = absurd (omega arith)
has_subnet (s ∷ ss) h = refl

-- With its defaults applied, a configuration passes validation whichever features are enabled, if
-- bridge mode is enabled, the access interface is named, there is a subnet and all subnets are
-- CIDRs, and each port is between 0 and 65535, no limit is negative, and the session TTL is zero or
-- at least 30 seconds and the dial timeout zero or at least a second.
pub defaults_pass :
    (is_cidr : String → Bool) (c : Config)
    → IsGiven is_cidr c
    → validate is_cidr (apply_defaults c) ≡ none
unfolding validate check_enabled
defaults_pass is_cidr c g =
    rw
      (
        relay_passes is_cidr c g,
        access_passes is_cidr c g,
        ingress_passes is_cidr c g,
        tunnels_pass is_cidr c g,
      )
      (unfold apply_defaults in
        ground (
          arith,
          g.bridge,
          g.iface,
          subnets_pass is_cidr c.access_subnets g.cidrs,
          has_subnet c.access_subnets g.some_subnet,
        ))
