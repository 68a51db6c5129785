-- ===== src/Policy/Settings.antt =====
-- internal/policy/config.go: the configuration of policy enforcement.
use plexd.Base.{
  String, Bool, true, not, ◌||◌, ◌==◌, arith, ◌≡◌, Option, none, some, if◌then◌else◌, Bool-cases,
  inl, inr, refl,
}

pub record Config : Type 0 where
  pub enabled : Bool
  pub chain_name : String

unfoldable pub apply_defaults : Config → Config
apply_defaults c =
    if c.chain_name == "" then record { enabled = true; chain_name = "plexd-mesh" } else c

pub data ConfigError : Type 0 where
  empty_chain_name : ConfigError

unfoldable pub validate : Config → Option ConfigError
validate c =
    if not c.enabled then none else if c.chain_name == "" then some empty_chain_name else none

-- The defaults keep an enforcement that is switched off only if a chain is named: with no chain name
-- they switch it on. What they give is always valid.
pub apply_defaults_enabled :
    (c : Config)
    → ((apply_defaults c).enabled ≡ (c.chain_name == "" || c.enabled))
      × (validate (apply_defaults c) ≡ none)
unfolding apply_defaults validate
apply_defaults_enabled c = elim (Bool-cases (c.chain_name == "")) [
  | inl e ↦ rw (e, apply_defaults) (refl, refl)
  | inr e ↦ rw (e, apply_defaults, e) (refl, (ground arith))
]
