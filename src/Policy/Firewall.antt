-- ===== src/Policy/Firewall.antt =====
-- internal/policy/firewall.go: a packet filter rule.
use plexd.Base.{String, not, ◌&&◌, ◌||◌, ◌==◌, Option, none, some, if◌then◌else◌}
use plexd.Base.Int.{ℤ, ltb_ℤ, leb_ℤ}

pub record FirewallRule : Type 0 where
  pub interface : String
  pub src_ip : String
  pub dst_ip : String
  pub port : ℤ
  pub protocol : String
  pub action : String

pub data RuleError : Type 0 where
  invalid_action invalid_port invalid_protocol port_without_protocol : RuleError

unfoldable pub validate : FirewallRule → Option RuleError
validate r =
    if not (r.action == "allow") && not (r.action == "deny")
    then some invalid_action
    else if ltb_ℤ r.port 0 || not (leb_ℤ r.port 65535)
    then some invalid_port
    else if not (r.protocol == "") && (not (r.protocol == "tcp") && not (r.protocol == "udp"))
    then some invalid_protocol
    else if not (leb_ℤ r.port 0) && r.protocol == ""
    then some port_without_protocol
    else none
