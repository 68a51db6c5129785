-- ===== src/Reconcile/Diff/Stages.antt =====
-- internal/reconcile/diff.go: the tests that keep a diff empty, for each part of the states.
use plexd.Base.{
  String, List, [], ◌∷◌, true, false, eq_iff, eq_refl, Option, none, some, arith, ◌≡◌, refl, ap,
  contains, NoRepeats, Option-cases, String-cases, inl, inr, ◌↔◌,
}
use plexd.Base.GoMap.{GoMap, Distinct, find, has, store, store-Distinct}
use plexd.Base.Int.{ℤ}
use plexd.Api.Types.{Peer, Policy, DataEntry, SecretRef, StateResponse}
use plexd.Reconcile.Diff.{
  is_empty, peer_changed, peers_by_id, peer_ids, policy_ids, id_set, diff_states, versions_differ,
  data_versions, secret_versions,
}
use plexd.Reconcile.Diff.Maps.{SameMap, maps_equal_iff, versions_differ_iff}
use plexd.Reconcile.Diff.Peers.{last_peer, find-peers_by_id, has-id_set, contains-peer_ids}
use plexd.Reconcile.Diff.Empty.{
  all_current, all_in, same_peers, same_policies, same_keys, is_empty-diff_states,
}

-- What two maps hold under an id, by the test of the code.
abbrev pub Unchanged : Option Peer → Option Peer → Type 0
Unchanged none none = Unit
Unchanged none (some c) = ⊥
Unchanged (some p) none = ⊥
Unchanged (some p) (some c) = peer_changed p c ≡ false

-- What JSON objects and a control plane without double ids give.
pub record IsWellFormed (s : StateResponse) : Type 0 where
  pub peers : NoRepeats (peer_ids s.peers)
  pub metadata : Distinct s.metadata

all_in-has :
    (m : GoMap (Unit {0})) (is : List String) (i : String)
    → all_in m is ≡ true
    → contains i is ≡ true
    → has i m ≡ true
all_in-has m [] i h c = absurd (ground arith)
all_in-has m (j ∷ is) i h c =
    ground (arith, eq_iff j i, all_in-has m is i, ap (λ (s : String). has s m))

has-all_in :
    (m : GoMap (Unit {0})) (is : List String)
    → ((i : String) → contains i is ≡ true → has i m ≡ true)
    → all_in m is ≡ true
has-all_in m [] h = refl
has-all_in m (j ∷ is) h = rw (h j (rw eq_refl)) (has-all_in m is (λ i c. h i (ground arith)))

has-id_set_empty : (i : String) (is : List String) → has i (id_set is []) ≡ contains i is
unfolding has
has-id_set_empty i is = ground (arith, has-id_set i is [])

same_policies_iff :
    (d c : List Policy)
    → (same_policies d c ≡ true)
      ↔ ((i : String) → contains i (policy_ids d) ≡ contains i (policy_ids c))
same_policies_iff d c = (
  λ h i. ground (
    arith,
    all_in-has (id_set (policy_ids c) []) (policy_ids d) i,
    all_in-has (id_set (policy_ids d) []) (policy_ids c) i,
    has-id_set_empty i (policy_ids c),
    has-id_set_empty i (policy_ids d),
  ),
  λ h. ground (
    arith,
    has-all_in (id_set (policy_ids c) []) (policy_ids d) (λ i e. rw (has-id_set_empty, ← h i) e),
    has-all_in (id_set (policy_ids d) []) (policy_ids c) (λ i e. rw (has-id_set_empty, h i) e),
  ),
)

all_current-last :
    (cur : GoMap Peer) (ps : List Peer) (i : String) (p : Peer)
    → all_current cur ps ≡ true
    → last_peer i ps ≡ some p
    → (c : Peer) × (find i cur ≡ some c) × (peer_changed p c ≡ false)
unfolding last_peer
all_current-last cur [] i p a l = absurd (ground arith)
all_current-last cur (q ∷ ps) i p a l = elim (Option-cases (last_peer i ps)) [
  | inr (r, later) ↦ all_current-last cur ps i p (ground arith) (ground arith)
  | inl first ↦ elim (String-cases q.id i) [
    | inr (other, o) ↦ absurd (ground arith)
    | inl (same, e) ↦ elim (Option-cases (find q.id cur)) [
      | inl missing ↦ absurd (ground arith)
      | inr (c, found) ↦ (c, ground (arith, ap (λ (s : String). find s cur) e), ground arith)
    ]
  ]
]

all_current_of :
    (cur : GoMap Peer) (ps : List Peer)
    → NoRepeats (peer_ids ps)
    → ((i : String) (p : Peer)
        → last_peer i ps ≡ some p
        → (c : Peer) × (find i cur ≡ some c) × (peer_changed p c ≡ false))
    → all_current cur ps ≡ true
unfolding last_peer peer_ids
all_current_of cur [] n h = refl
all_current_of cur (q ∷ ps) n h =
    let (c, found, same) = h q.id q (rw (last_peer_absent q.id ps n.0, eq_refl)) in
    let rest = all_current_of cur ps n.1 (λ i p l. h i p (rw l)) in ground arith
  where
    last_peer_absent :
        (i : String) (ps : List Peer) → contains i (peer_ids ps) ≡ false → last_peer i ps ≡ none
    last_peer_absent i ps a = ground (arith, contains-peer_ids i ps)

pub find-by_id : (i : String) (ps : List Peer) → find i (peers_by_id ps []) ≡ last_peer i ps
unfolding find
find-by_id i ps = ground (arith, find-peers_by_id i ps [])

same_peers_iff :
    (d c : List Peer)
    → NoRepeats (peer_ids d)
    → (same_peers d c ≡ true)
      ↔ ((i : String) → Unchanged (find i (peers_by_id d [])) (find i (peers_by_id c [])))
same_peers_iff d c n = (to, from)
  where
    hit :
        (i : String) (p : Peer)
        → find i (peers_by_id d []) ≡ some p
        → Unchanged (find i (peers_by_id d [])) (find i (peers_by_id c []))
        → (x : Peer) × (find i (peers_by_id c []) ≡ some x) × (peer_changed p x ≡ false)
    hit i p l u = elim (Option-cases (find i (peers_by_id c []))) [
      | inl e ↦ absurd (rw (l, e) at u)
      | inr (x, e) ↦ (x, e, rw (l, e) at u)
    ]

    kept :
        (i : String)
        → contains i (peer_ids c) ≡ true
        → Unchanged (find i (peers_by_id d [])) (find i (peers_by_id c []))
        → has i (id_set (peer_ids d) []) ≡ true
    kept i e u = elim (Option-cases (find i (peers_by_id d []))) [
      | inr (p, l) ↦
          ground (arith, has-id_set_empty i (peer_ids d), contains-peer_ids i d, find-by_id i d)
      | inl l ↦ elim (Option-cases (find i (peers_by_id c []))) [
        | inl k ↦ absurd (ground (arith, contains-peer_ids i c, find-by_id i c))
        | inr (x, k) ↦ absurd (rw (l, k) at u)
      ]
    ]

    cases :
        (i : String)
        → ((p : Peer)
            → last_peer i d ≡ some p
            → (x : Peer) × (last_peer i c ≡ some x) × (peer_changed p x ≡ false))
        → (last_peer i d ≡ none → last_peer i c ≡ none)
        → Unchanged (last_peer i d) (last_peer i c)
    cases i f g = elim (Option-cases (last_peer i d)) [
      | inl e ↦ rw (e, g e) tt
      | inr (p, e) ↦ (let (x, found, same) = f p e in rw (e, found) same)
    ]

    to :
        same_peers d c ≡ true
        → (i : String) → Unchanged (find i (peers_by_id d [])) (find i (peers_by_id c []))
    to h i =
        rw (find-by_id, find-by_id)
          (cases i
            (λ p l.
              (let (x, found, same) = all_current-last (peers_by_id c []) d i p (ground arith) l in
                (x, rw (← find-by_id i c) found, same)))
            (λ l. ground (
              arith,
              all_in-has (id_set (peer_ids d) []) (peer_ids c) i,
              has-id_set_empty i (peer_ids d),
              contains-peer_ids i d,
              contains-peer_ids i c,
            )))

    from :
        ((i : String) → Unchanged (find i (peers_by_id d [])) (find i (peers_by_id c [])))
        → same_peers d c ≡ true
    from h =
        let current =
          all_current_of (peers_by_id c []) d n
            (λ i p l. hit i p (ground (arith, find-by_id i d)) (h i)) in
        let desired = has-all_in (id_set (peer_ids d) []) (peer_ids c) (λ i e. kept i e (h i)) in
        ground arith

by_key-Distinct : (es : List DataEntry) (m : GoMap ℤ) → Distinct m → Distinct (data_versions es m)
unfolding data_versions
by_key-Distinct [] m d = d
by_key-Distinct (e ∷ es) m d =
    by_key-Distinct es (store e.key e.version m) (store-Distinct e.key e.version m d)

secrets-Distinct :
    (es : List SecretRef) (m : GoMap ℤ) → Distinct m → Distinct (secret_versions es m)
unfolding secret_versions
secrets-Distinct [] m d = d
secrets-Distinct (e ∷ es) m d =
    secrets-Distinct es (store e.key e.version m) (store-Distinct e.key e.version m d)

data_iff :
    (d c : List DataEntry)
    → (versions_differ (data_versions d []) (data_versions c []) ≡ false)
      ↔ SameMap (data_versions d []) (data_versions c [])
data_iff d c =
    versions_differ_iff (data_versions d []) (data_versions c []) (by_key-Distinct d [] tt)

refs_iff :
    (d c : List SecretRef)
    → (versions_differ (secret_versions d []) (secret_versions c []) ≡ false)
      ↔ SameMap (secret_versions d []) (secret_versions c [])
refs_iff d c =
    versions_differ_iff (secret_versions d []) (secret_versions c []) (secrets-Distinct d [] tt)

-- The tests that keep the diff empty.
pub record Unmoved (d c : StateResponse) : Type 0 where
  pub peers :
      (i : String) → Unchanged (find i (peers_by_id d.peers [])) (find i (peers_by_id c.peers []))
  pub policies :
      (i : String) → contains i (policy_ids d.policies) ≡ contains i (policy_ids c.policies)
  pub keys : same_keys d.signing_keys c.signing_keys ≡ true
  pub metadata : SameMap d.metadata c.metadata
  pub entries : SameMap (data_versions d.entries []) (data_versions c.entries [])
  pub secrets : SameMap (secret_versions d.secret_refs []) (secret_versions c.secret_refs [])

pub is_empty-Unmoved :
    (d c : StateResponse)
    → IsWellFormed d
    → IsWellFormed c
    → (is_empty (diff_states d c) ≡ true) ↔ Unmoved d c
is_empty-Unmoved d c wd wc = (
  λ h.
      (let e = rw is_empty-diff_states at h in
        record {
          peers = (same_peers_iff d.peers c.peers wd.peers).0 (ground arith);
          policies = (same_policies_iff d.policies c.policies).0 (ground arith);
          keys = ground arith;
          metadata =
              (maps_equal_iff d.metadata c.metadata wd.metadata wc.metadata).0 (ground arith);
          entries = (data_iff d.entries c.entries).0 (ground arith);
          secrets = (refs_iff d.secret_refs c.secret_refs).0 (ground arith);
        }),
  λ a. rw is_empty-diff_states (
      rw (
        (same_peers_iff d.peers c.peers wd.peers).1 a.peers,
        (same_policies_iff d.policies c.policies).1 a.policies,
        a.keys,
        (maps_equal_iff d.metadata c.metadata wd.metadata wc.metadata).1 a.metadata,
        (data_iff d.entries c.entries).1 a.entries,
        (refs_iff d.secret_refs c.secret_refs).1 a.secrets,
      )),
)
