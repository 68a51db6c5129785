-- ===== src/Policy/Engine/Visible.antt =====
-- internal/policy/engine.go: the peers that FilterPeers returns.
use mathlib.Core.Path.{subst}
use plexd.Base.{
  String, List, [], ◌∷◌, true, false, ◌==◌, eq_iff, arith, ◌≡◌, ◌≢◌, ◌↔◌, ◌⊎◌, inl, inr, refl, sym,
  Bool-cases, String-cases,
}
use plexd.Api.Types.{Peer, Policy, PolicyRule}
use plexd.Policy.Engine.{rule_allows, some_rule_allows, peer_allowed, filter_allowed, filter_peers}

abbrev pub Matches : String → String → Type 0
Matches pattern id = (pattern ≡ id) ⊎ (pattern ≡ "*")

-- An allow rule with one node on each side, in either direction.
abbrev pub Connects : String → String → PolicyRule → Type 0
Connects a b r =
    (r.action ≡ "allow")
    × ((Matches r.src a × Matches r.dst b) ⊎ (Matches r.src b × Matches r.dst a))

abbrev pub SomeRule : (PolicyRule → Type 0) → List PolicyRule → Type 0
SomeRule P [] = ⊥
SomeRule P (r ∷ rs) = P r ⊎ SomeRule P rs

abbrev pub SomePolicy : (PolicyRule → Type 0) → List Policy → Type 0
SomePolicy P [] = ⊥
SomePolicy P (p ∷ ps) = SomeRule P p.rules ⊎ SomePolicy P ps

rule_allows_iff :
    (peer local : String) (r : PolicyRule)
    → (rule_allows peer local r ≡ true) ↔ Connects local peer r
unfolding rule_allows
rule_allows_iff peer local r = (
  λ h. ground (
    arith,
    eq_iff r.action "allow",
    eq_iff r.src local,
    eq_iff r.src "*",
    eq_iff r.dst peer,
    eq_iff r.dst "*",
    eq_iff r.src peer,
    eq_iff r.dst local,
  ),
  λ h. ground (
    arith,
    eq_iff r.action "allow",
    eq_iff r.src local,
    eq_iff r.src "*",
    eq_iff r.dst peer,
    eq_iff r.dst "*",
    eq_iff r.src peer,
    eq_iff r.dst local,
  ),
)

some_rule_allows_iff :
    (peer local : String) (rs : List PolicyRule)
    → (some_rule_allows peer local rs ≡ true) ↔ SomeRule (Connects local peer) rs
unfolding some_rule_allows
some_rule_allows_iff peer local [] = (λ h. cc, λ h. absurd h)
some_rule_allows_iff peer local (r ∷ rs) = (
  λ h. elim (Bool-cases (rule_allows peer local r)) [
    | inl e ↦ inl ((rule_allows_iff peer local r).0 e)
    | inr e ↦ inr ((some_rule_allows_iff peer local rs).0 (ground arith))
  ],
  λ h. elim h [
    | inl c ↦ (let e = (rule_allows_iff peer local r).1 c in ground arith)
    | inr c ↦ (let e = (some_rule_allows_iff peer local rs).1 c in ground arith)
  ],
)

peer_allowed_iff :
    (peer local : String) (ps : List Policy)
    → (peer_allowed peer local ps ≡ true) ↔ SomePolicy (Connects local peer) ps
unfolding peer_allowed
peer_allowed_iff peer local [] = (λ h. cc, λ h. absurd h)
peer_allowed_iff peer local (p ∷ ps) = (
  λ h. elim (Bool-cases (some_rule_allows peer local p.rules)) [
    | inl e ↦ inl ((some_rule_allows_iff peer local p.rules).0 e)
    | inr e ↦ inr ((peer_allowed_iff peer local ps).0 (ground arith))
  ],
  λ h. elim h [
    | inl c ↦ (let e = (some_rule_allows_iff peer local p.rules).1 c in ground arith)
    | inr c ↦ (let e = (peer_allowed_iff peer local ps).1 c in ground arith)
  ],
)

-- A peer of the list, by value.
abbrev pub Among : Peer → List Peer → Type 0
Among q [] = ⊥
Among q (p ∷ ps) = (p ≡ q) ⊎ Among q ps

-- What the loop of FilterPeers asks of a peer.
abbrev Passes : List Policy → String → Peer → Type 0
Passes policies local q = (q.id ≢ local) × (peer_allowed q.id local policies ≡ true)

Passes-dec :
    (policies : List Policy) (local : String) (q : Peer)
    → (Passes policies local q
        × ((q.id == local) ≡ false)
        × (peer_allowed q.id local policies ≡ true))
      ⊎ (¬ Passes policies local q
          × (((q.id == local) ≡ true)
              ⊎ (((q.id == local) ≡ false) × (peer_allowed q.id local policies ≡ false))))
Passes-dec policies local q = elim (String-cases q.id local) [
  | inl (same, e) ↦ inr (λ p. p.0 e, inl same)
  | inr (other, n) ↦ elim (Bool-cases (peer_allowed q.id local policies)) [
    | inl a ↦ inl ((n, a), other, a)
    | inr a ↦ inr (λ p. ground arith, inr (other, a))
  ]
]

filter-kept :
    (p : Peer) (ps : List Peer) (policies : List Policy) (local : String)
    → (p.id == local) ≡ false
    → peer_allowed p.id local policies ≡ true
    → filter_allowed (p ∷ ps) policies local ≡ p ∷ filter_allowed ps policies local
unfolding filter_allowed
filter-kept p ps policies local other a = rw (other, a)

filter-dropped :
    (p : Peer) (ps : List Peer) (policies : List Policy) (local : String)
    → ((p.id == local) ≡ true)
      ⊎ (((p.id == local) ≡ false) × (peer_allowed p.id local policies ≡ false))
    → filter_allowed (p ∷ ps) policies local ≡ filter_allowed ps policies local
unfolding filter_allowed
filter-dropped p ps policies local h = ground arith

Among-filter :
    (q : Peer) (ps : List Peer) (policies : List Policy) (local : String)
    → Among q (filter_allowed ps policies local) ↔ (Among q ps × Passes policies local q)
unfolding filter_allowed
Among-filter q [] policies local = (λ h. absurd h, λ h. absurd h.0)
Among-filter q (p ∷ ps) policies local =
    let ih = Among-filter q ps policies local in
    elim (Passes-dec policies local p) [
      | inl (passes, other, a) ↦ rw (filter-kept p ps policies local other a) (
        λ h. elim h [
          | inl e ↦ (inl e, subst (Passes policies local) e passes)
          | inr m ↦ (inr (ih.0 m).0, (ih.0 m).1)
        ],
        λ h. elim h.0 [ inl e ↦ inl e | inr m ↦ inr (ih.1 (m, h.1)) ],
      )
      | inr (fails, why) ↦ rw (filter-dropped p ps policies local why) (
        λ h. (inr (ih.0 h).0, (ih.0 h).1),
        λ h. elim h.0 [
          | inl e ↦ absurd (fails (subst (Passes policies local) (sym e) h.1))
          | inr m ↦ ih.1 (m, h.1)
        ],
      )
    ]

-- A peer is among those that `filter_peers` returns exactly when it is among the given peers, is not
-- the local node, and some allow rule of some policy has the two nodes on its two sides, in either
-- direction, by id or by the wildcard. Without policies there is none.
pub Among-filter_peers :
    (q : Peer) (ps : List Peer) (policies : List Policy) (local : String)
    → Among q (filter_peers ps policies local)
      ↔ (Among q ps × (q.id ≢ local) × SomePolicy (Connects local q.id) policies)
unfolding filter_peers
Among-filter_peers q ps [] local = (λ h. absurd h, λ h. absurd h.2)
Among-filter_peers q ps (p ∷ pols) local =
    let f = Among-filter q ps (p ∷ pols) local in
    let a = peer_allowed_iff q.id local (p ∷ pols) in
    (λ h. (let (m, passes) = f.0 h in (m, passes.0, a.0 passes.1)), λ h. f.1 (h.0, (h.1, a.1 h.2)))

rule_allows_comm : (a b : String) (r : PolicyRule) → rule_allows a b r ≡ rule_allows b a r
unfolding rule_allows
rule_allows_comm a b r = ground arith

some_rule_allows_comm :
    (a b : String) (rs : List PolicyRule) → some_rule_allows a b rs ≡ some_rule_allows b a rs
unfolding some_rule_allows
some_rule_allows_comm a b [] = refl
some_rule_allows_comm a b (r ∷ rs) = rw (rule_allows_comm a b r, some_rule_allows_comm a b rs)

-- Visibility is symmetric: under the same policies a node is allowed to see a peer exactly when the
-- peer is allowed to see the node.
pub peer_allowed_comm :
    (a b : String) (ps : List Policy) → peer_allowed a b ps ≡ peer_allowed b a ps
unfolding peer_allowed
peer_allowed_comm a b [] = refl
peer_allowed_comm a b (p ∷ ps) = rw (some_rule_allows_comm a b p.rules, peer_allowed_comm a b ps)
