-- ===== src/Policy/Nftables.antt =====
-- internal/policy/nftables_linux.go: rules as nftables expressions, and their atomic application. The
-- kernel is the map from chain names to the expressions of their rules; a batch of the netlink
-- library takes effect as a whole or not at all.
pub mod Compile
pub mod Apply
use plexd.Api.Envelope.{Bytes}
use plexd.Base.{
  ℕ, ◌+◌, ◌/◌, ◌%◌, ◌≤◌, suc, String, List, [], ◌∷◌, ◌++◌, Bool, true, false, not, ◌&&◌, ◌||◌, ◌==◌,
  eqb, ltb, Option, none, some, if◌then◌else◌, length,
}
use plexd.Base.GoMap.{GoMap, has, store, delete}
use plexd.Base.Int.{ℤ, pos, negsuc, leb_ℤ}
use plexd.Policy.Firewall.{FirewallRule}

-- What net.ParseCIDR gives: the address and the network, as To4 reads them, and the mask.
pub record Cidr : Type 0 where
  pub ip : Option Bytes
  pub network : Bytes
  pub mask : Bytes
  pub ones : ℕ
  pub bits : ℕ

-- What the code takes from package net, and Go's conversion of a string to bytes.
pub record Host : Type 0 where
  pub parse_cidr : String → Option Cidr
  pub parse_ip : String → Option (Option Bytes)
  pub bytes_of : String → Bytes

pub data Expr : Type 0 where
  meta_iifname meta_l4proto counter verdict_accept verdict_drop : Expr
  cmp_eq : Bytes → Expr
  payload_network payload_transport : ℕ → ℕ → Expr
  bitwise : Bytes → Expr

pub data BuildError : Type 0 where
  invalid_address non_ipv4_address unsupported_protocol unsupported_action : BuildError
  -- A slice expression out of range, which panics.
  slice_out_of_range : BuildError

pub data Built : Type 0 where
  built : List Expr → Built
  failed : BuildError → Built

infixl 5 ◌>>=◌
abbrev pub ◌>>=◌ : Built → (List Expr → Built) → Built
built es >>= f = f es
failed e >>= f = failed e

pub data BuiltRules : Type 0 where
  all_built : List (List Expr) → BuiltRules
  one_failed : BuildError → BuiltRules

-- The name and a zero byte, cut from a buffer of 16.
unfoldable pub iface_name_bytes : Bytes → Option Bytes
iface_name_bytes name = if ltb 15 (length name) then none else some (name ++ 0 ∷ [])

-- The two big-endian bytes of a port as an uint16.
unfoldable pub port_bytes : ℕ → Bytes
port_bytes port = (port % 65536) / 256 ∷ (port % 256) ∷ []

unfoldable pub protocol_number : String → Option ℕ
protocol_number proto = if proto == "tcp" then some 6 else if proto == "udp" then some 17 else none

-- The tail of `buildIPMatchExprs`, from the size of the mask on.
unfoldable pub match_network : Option Bytes → Bytes → Bytes → ℕ → ℕ → ℕ → Built
match_network ip network mask ones bits offset =
    if not (eqb bits 32)
    then failed non_ipv4_address
    else if eqb ones 32
    then (elim ip [
      | none ↦ failed non_ipv4_address
      | some a ↦ built (payload_network offset 4 ∷ cmp_eq a ∷ [])
    ])
    else built (payload_network offset 4 ∷ bitwise mask ∷ cmp_eq network ∷ [])

module _ (host : Host) where
  open host use {parse_cidr, parse_ip, bytes_of}

  unfoldable pub build_ip_match_exprs : String → ℕ → Built
  build_ip_match_exprs addr offset = elim (parse_cidr addr) [
    | some c ↦ match_network c.ip c.network c.mask c.ones c.bits offset
    | none ↦ elim (parse_ip addr) [
      | none ↦ failed invalid_address
      | some none ↦ failed non_ipv4_address
      | some (some a) ↦ match_network (some a) a (255 ∷ 255 ∷ 255 ∷ 255 ∷ []) 32 32 offset
    ]
  ]

  unfoldable pub interface_match : String → Built
  interface_match iface =
      if iface == "" then built [] else (elim (iface_name_bytes (bytes_of iface)) [
        | none ↦ failed slice_out_of_range
        | some name ↦ built (meta_iifname ∷ cmp_eq name ∷ [])
      ])

  unfoldable pub address_match : String → ℕ → Built
  address_match ip offset =
      if ip == "" || ip == "0.0.0.0/0" then built [] else build_ip_match_exprs ip offset

  unfoldable pub protocol_match : String → Built
  protocol_match proto = if proto == "" then built [] else (elim (protocol_number proto) [
    | none ↦ failed unsupported_protocol
    | some n ↦ built (meta_l4proto ∷ cmp_eq (n ∷ []) ∷ [])
  ])

  unfoldable pub port_match : ℤ → List Expr
  port_match (pos n) = if eqb n 0 then [] else payload_transport 2 2 ∷ cmp_eq (port_bytes n) ∷ []
  port_match (negsuc n) = []

  unfoldable pub verdict : String → Built
  verdict action =
      if action == "allow"
      then built (verdict_accept ∷ [])
      else if action == "deny"
      then built (verdict_drop ∷ [])
      else failed unsupported_action

  unfoldable pub build_rule_exprs : FirewallRule → Built
  build_rule_exprs r = do
    iface ← interface_match r.interface
    src ← address_match r.src_ip 12
    dst ← address_match r.dst_ip 16
    proto ← protocol_match r.protocol
    end ← verdict r.action
    built (iface ++ (src ++ (dst ++ (proto ++ (port_match r.port ++ counter ∷ end)))))

  -- The loop of `ApplyRules`.
  unfoldable pub build_rules : List FirewallRule → BuiltRules
  build_rules [] = all_built []
  build_rules (r ∷ rs) =
      let rest = build_rules rs in
      elim (build_rule_exprs r) [
        | failed e ↦ one_failed e
        | built es ↦ elim rest [
          | all_built ess ↦ all_built (es ∷ ess)
          | one_failed e ↦ one_failed e
        ]
      ]

abbrev pub Kernel : Type 0
Kernel = GoMap (List (List Expr))

pub data NftError : Type 0 where
  no_connection flush_failed list_failed : NftError
  build_failed : BuildError → NftError

-- Whether the netlink connection opens, chains can be listed, and the batch is taken.
pub record Netlink : Type 0 where
  pub opens : Bool
  pub lists : Bool
  pub commits : Bool

unfoldable pub commit : Netlink → Kernel → Kernel → Kernel × Option NftError
commit n k k' = if n.commits then (k', none) else (k, some flush_failed)

unfoldable pub ensure_chain : Netlink → Kernel → String → Kernel × Option NftError
ensure_chain n k chain =
    if not n.opens
    then (k, some no_connection)
    else commit n k (if has chain k then k else store chain [] k)

unfoldable pub apply_rules :
    Host → Netlink → Kernel → String → List FirewallRule → Kernel × Option NftError
apply_rules host n k chain rules =
    if not n.opens then (k, some no_connection) else (elim (build_rules host rules) [
      | one_failed e ↦ (k, some (build_failed e))
      | all_built ess ↦ commit n k (store chain ess k)
    ])

-- A batch that flushes a chain which is not there is refused by the kernel.
unfoldable pub flush_chain : Netlink → Kernel → String → Kernel × Option NftError
flush_chain n k chain =
    if not n.opens
    then (k, some no_connection)
    else if has chain k
    then commit n k (store chain [] k)
    else (k, some flush_failed)

unfoldable pub delete_chain : Netlink → Kernel → String → Kernel × Option NftError
delete_chain n k chain =
    if not n.opens
    then (k, some no_connection)
    else if not n.lists
    then (k, some list_failed)
    else if has chain k
    then commit n k (delete chain k)
    else (k, none)
