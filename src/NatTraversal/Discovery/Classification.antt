-- ===== src/NatTraversal/Discovery/Classification.antt =====
-- internal/nat/discoverer.go: what Discover finds, from the addresses that the servers answer.
use plexd.Base.{
  ℕ, String, List, [], ◌∷◌, Bool, true, false, ◌&&◌, eqb, Option, none, some, if◌then◌else◌, ◌≡◌,
  refl, ap, ◌∙◌,
}
use plexd.Api.Envelope.{Bytes}
use plexd.NatTraversal.Stun.{MappedAddress}
use plexd.NatTraversal.Discovery.{
  NatType, nat_none, full_cone, symmetric, unknown, DiscoveryResult, Discoverer, Answers,
  first_binding, second_binding, update_last_result, found, discover,
}

-- The addresses of the servers that answer, in their order.
abbrev pub addresses : Answers → List MappedAddress
addresses [] = []
addresses ((server, none) ∷ servers) = addresses servers
addresses ((server, some addr) ∷ servers) = addr ∷ addresses servers

module _ (ip_equal : Bytes → Bytes → Bool) (print : MappedAddress → String) where
  abbrev pub nat_type_of : ℕ → MappedAddress → List MappedAddress → NatType
  nat_type_of local first rest = if eqb first.port local then nat_none else (elim rest [
    | [] ↦ unknown
    | second ∷ more ↦
        if ip_equal first.ip second.ip && eqb first.port second.port then full_cone else symmetric
  ])

  -- What is found: the first address, and the type by the first two.
  abbrev pub classify : List MappedAddress → Discoverer → Discoverer × Option DiscoveryResult
  classify [] d = (d, none)
  classify (first ∷ rest) d =
      let t = nat_type_of d.local_port first rest in
      (
        record d { last_result = some (record { public_endpoint = print first; type = t }) },
        some (record { endpoint = print first; nat_type = t }),
      )

  second_binding_lem :
      (local : ℕ) (first : MappedAddress) (servers : Answers)
      → (if eqb first.port local then nat_none else second_binding ip_equal print first servers)
        ≡ nat_type_of local first (addresses servers)
  unfolding second_binding
  second_binding_lem local first [] = refl
  second_binding_lem local first ((server, none) ∷ servers) = second_binding_lem local first servers
  second_binding_lem local first ((server, some second) ∷ servers) = refl

  found_type :
      (local : ℕ) (first : MappedAddress) (servers : Answers) (d : Discoverer)
      → (if eqb first.port local
          then found ip_equal print first nat_none d
          else found ip_equal print first (second_binding ip_equal print first servers) d)
        ≡ found ip_equal print first (nat_type_of local first (addresses servers)) d
  found_type local first servers d =
      choose (eqb first.port local) (second_binding ip_equal print first servers)
      ∙ ap (λ (t : NatType). found ip_equal print first t d)
          (second_binding_lem local first servers)
    where
      choose :
          (b : Bool) (t : NatType)
          → (if b then found ip_equal print first nat_none d else found ip_equal print first t d)
            ≡ found ip_equal print first (if b then nat_none else t) d
      choose true t = refl
      choose false t = refl

  -- A discovery finds what the addresses of the answering servers say: the first is the endpoint; the
  -- type is `nat_none` if its port is the local one, and else `full_cone` or `symmetric` as the second
  -- address is the same or another, and `unknown` without a second. The result is kept; when no server
  -- answers nothing is found and the last result stays.
  pub discover-classify :
      (servers : Answers) (d : Discoverer)
      → discover ip_equal print servers d ≡ classify (addresses servers) d
  unfolding discover first_binding found update_last_result
  discover-classify [] d = refl
  discover-classify ((server, none) ∷ servers) d = discover-classify servers d
  discover-classify ((server, some first) ∷ servers) d = found_type d.local_port first servers d
