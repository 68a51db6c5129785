-- ===== src/NatTraversal/Tests.antt =====
-- internal/nat/discoverer.go: runs with two servers.
use plexd.Base.{String, [], ◌∷◌, none, some, ◌≡◌, refl}
use plexd.Api.Envelope.{same_bytes}
use plexd.NatTraversal.Stun.{MappedAddress}
use plexd.NatTraversal.Discovery.{
  full_cone, Discoverer, Answers, first_binding, second_binding, update_last_result, found,
  discover, peer_updates,
}
use plexd.NatTraversal.Discovery.Classification.{addresses, classify, discover-classify}

abbrev address : MappedAddress
address = record { ip = 192 ∷ 0 ∷ 2 ∷ 1 ∷ []; port = 40000 }

abbrev print : MappedAddress → String
print a = "192.0.2.1:40000"

abbrev servers : Answers
servers = ("stun1", none) ∷ ("stun2", some address) ∷ ("stun3", some address) ∷ []

abbrev discoverer : Discoverer
discoverer = record { local_port = 51820; last_result = none }

program : Unit {0}
unfolding first_binding second_binding update_last_result found discover peer_updates
program = tt

full_cone_example :
    (discover same_bytes print servers discoverer).1
    ≡ some (record { endpoint = "192.0.2.1:40000"; nat_type = full_cone })
unfolding program
full_cone_example = refl

discover-classify_example :
    discover same_bytes print servers discoverer
    ≡ classify same_bytes print (addresses servers) discoverer
discover-classify_example = discover-classify same_bytes print servers discoverer

-- The update of a peer's endpoint carries no public key.
update_example :
    peer_updates ((record { peer_id = "p"; endpoint = "e" }) ∷ [])
    ≡ record { id = "p"; public_key = ""; mesh_ip = ""; endpoint = "e"; allowed_ips = []; psk = "" }
      ∷ []
unfolding program
update_example = refl
