-- ===== src/NatTraversal/Discovery.antt =====
-- internal/nat/discoverer.go and reporter.go: the endpoint and the NAT type that the STUN servers show,
-- and the endpoints of peers that come back. A server stands with what Bind gives for it in the call,
-- `none` for an error.
pub mod Classification
use plexd.Base.{
  ℕ, String, List, [], ◌∷◌, Bool, true, false, ◌==◌, ◌&&◌, eqb, Option, none, some, if◌then◌else◌,
}
use plexd.Api.Envelope.{Bytes}
use plexd.Api.Types.{Peer}
use plexd.NatTraversal.Stun.{MappedAddress}

pub data NatType : Type 0 where
  nat_none full_cone symmetric unknown : NatType

pub record DiscoveryResult : Type 0 where
  pub endpoint : String
  pub nat_type : NatType

-- api.NATInfo
pub record NatInfo : Type 0 where
  pub public_endpoint : String
  pub type : NatType

pub record Discoverer : Type 0 where
  pub local_port : ℕ
  pub last_result : Option NatInfo

abbrev pub Answers : Type 0
Answers = List (String × Option MappedAddress)

-- The loop for the first binding: the address, and the servers after it.
unfoldable pub first_binding : Answers → Option (MappedAddress × Answers)
first_binding [] = none
first_binding ((server, none) ∷ servers) = first_binding servers
first_binding ((server, some addr) ∷ servers) = some (addr, servers)

-- What package net's IP.Equal says, and MappedAddress.String.
module _ (ip_equal : Bytes → Bytes → Bool) (print : MappedAddress → String) where
  -- The loop for the second binding.
  unfoldable pub second_binding : MappedAddress → Answers → NatType
  second_binding first [] = unknown
  second_binding first ((server, none) ∷ servers) = second_binding first servers
  second_binding first ((server, some second) ∷ servers) =
      if ip_equal first.ip second.ip && eqb first.port second.port then full_cone else symmetric

  unfoldable pub update_last_result : String → NatType → Discoverer → Discoverer
  update_last_result endpoint nat_type d = record d {
    last_result = some (record { public_endpoint = endpoint; type = nat_type });
  }

  unfoldable pub found : MappedAddress → NatType → Discoverer → Discoverer × Option DiscoveryResult
  found addr nat_type d = (
    update_last_result (print addr) nat_type d,
    some (record { endpoint = print addr; nat_type = nat_type }),
  )

  unfoldable pub discover : Answers → Discoverer → Discoverer × Option DiscoveryResult
  discover servers d = elim (first_binding servers) [
    | none ↦ (d, none)
    | some b ↦
        if eqb b.0.port d.local_port
        then found b.0 nat_none d
        else found b.0 (second_binding b.0 b.1) d
  ]

-- api.PeerEndpoint
pub record PeerEndpoint : Type 0 where
  pub peer_id : String
  pub endpoint : String

-- The peers that reportAndApply hands to the updater, from the endpoints of a response; an error of
-- the updater is only logged.
unfoldable pub peer_updates : List PeerEndpoint → List Peer
peer_updates [] = []
peer_updates (pe ∷ pes) =
    let rest = peer_updates pes in
    if pe.endpoint == ""
    then rest
    else record {
      id = pe.peer_id;
      public_key = "";
      mesh_ip = "";
      endpoint = pe.endpoint;
      allowed_ips = [];
      psk = "";
    }
      ∷ rest
