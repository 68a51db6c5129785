-- ===== src/Reconcile/Diff/Empty.antt =====
-- internal/reconcile/diff.go: the stages of a diff, each with the test that keeps it empty.
use plexd.Base.{
  String, List, [], ◌∷◌, ◌++◌, Bool, true, false, not, ◌&&◌, ◌==◌, Option, none, some, arith, ◌≡◌,
  refl, length-append,
}
use plexd.Base.GoMap.{GoMap, find, has}
use plexd.Api.Types.{Peer, Policy, SigningKeys, DataEntry, SecretRef, StateResponse}
use plexd.Reconcile.Diff.{
  StateDiff, zero_diff, is_empty, peer_changed, peers_by_id, peer_ids, policy_ids, id_set,
  diff_peers, diff_policies, diff_signing_keys, diff_metadata, diff_data, diff_secret_refs,
  diff_states, maps_equal, versions_differ, data_versions, secret_versions, note_desired_peer,
  note_desired_peers, note_removed_peers, note_desired_policies, note_removed_policies,
}

-- A desired peer that is there and has not changed.
abbrev pub is_current : GoMap Peer → Peer → Bool
is_current cur p = elim (find p.id cur) [ none ↦ false | some c ↦ not (peer_changed p c) ]

abbrev pub all_current : GoMap Peer → List Peer → Bool
all_current cur [] = true
all_current cur (p ∷ ps) = is_current cur p && all_current cur ps

abbrev pub all_in : GoMap (Unit {0}) → List String → Bool
all_in m [] = true
all_in m (i ∷ is) = has i m && all_in m is

is_empty-note_peer :
    (cur : GoMap Peer) (p : Peer) (d : StateDiff)
    → is_empty (note_desired_peer cur p d) ≡ (is_empty d && is_current cur p)
unfolding is_empty note_desired_peer
is_empty-note_peer cur p d =
    ground (arith, length-append d.peers_to_add (p ∷ []), length-append d.peers_to_update (p ∷ []))

is_empty-note_peers :
    (cur : GoMap Peer) (ps : List Peer) (d : StateDiff)
    → is_empty (note_desired_peers cur ps d) ≡ (is_empty d && all_current cur ps)
unfolding note_desired_peers
is_empty-note_peers cur [] d = ground arith
is_empty-note_peers cur (p ∷ ps) d =
    ground
      (arith, is_empty-note_peers cur ps (note_desired_peer cur p d), is_empty-note_peer cur p d)

is_empty-remove_peer :
    (i : String) (d : StateDiff)
    → is_empty (record d { peers_to_remove = d.peers_to_remove ++ i ∷ [] }) ≡ false
unfolding is_empty
is_empty-remove_peer i d = ground (arith, length-append d.peers_to_remove (i ∷ []))

is_empty-removed_peers :
    (des : GoMap (Unit {0})) (cs : List Peer) (d : StateDiff)
    → is_empty (note_removed_peers des cs d) ≡ (is_empty d && all_in des (peer_ids cs))
unfolding note_removed_peers peer_ids
is_empty-removed_peers des [] d = ground arith
is_empty-removed_peers des (c ∷ cs) d = ground (
  arith,
  is_empty-removed_peers des cs d,
  is_empty-remove_peer c.id d,
  is_empty-removed_peers des cs (record d { peers_to_remove = d.peers_to_remove ++ c.id ∷ [] }),
)

is_empty-add_policy :
    (p : Policy) (d : StateDiff)
    → is_empty (record d { policies_to_add = d.policies_to_add ++ p ∷ [] }) ≡ false
unfolding is_empty
is_empty-add_policy p d = ground (arith, length-append d.policies_to_add (p ∷ []))

is_empty-remove_policy :
    (i : String) (d : StateDiff)
    → is_empty (record d { policies_to_remove = d.policies_to_remove ++ i ∷ [] }) ≡ false
unfolding is_empty
is_empty-remove_policy i d = ground (arith, length-append d.policies_to_remove (i ∷ []))

is_empty-note_policies :
    (cur : GoMap (Unit {0})) (ps : List Policy) (d : StateDiff)
    → is_empty (note_desired_policies cur ps d) ≡ (is_empty d && all_in cur (policy_ids ps))
unfolding note_desired_policies policy_ids
is_empty-note_policies cur [] d = ground arith
is_empty-note_policies cur (p ∷ ps) d = ground (
  arith,
  is_empty-note_policies cur ps d,
  is_empty-add_policy p d,
  is_empty-note_policies cur ps (record d { policies_to_add = d.policies_to_add ++ p ∷ [] }),
)

is_empty-removed_policies :
    (des : GoMap (Unit {0})) (cs : List Policy) (d : StateDiff)
    → is_empty (note_removed_policies des cs d) ≡ (is_empty d && all_in des (policy_ids cs))
unfolding note_removed_policies policy_ids
is_empty-removed_policies des [] d = ground arith
is_empty-removed_policies des (c ∷ cs) d = ground (
  arith,
  is_empty-removed_policies des cs d,
  is_empty-remove_policy c.id d,
  is_empty-removed_policies des cs
      (record d { policies_to_remove = d.policies_to_remove ++ c.id ∷ [] }),
)

abbrev pub same_peers : List Peer → List Peer → Bool
same_peers desired current =
    all_current (peers_by_id current []) desired
    && all_in (id_set (peer_ids desired) []) (peer_ids current)

abbrev pub same_policies : List Policy → List Policy → Bool
same_policies desired current =
    all_in (id_set (policy_ids current) []) (policy_ids desired)
    && all_in (id_set (policy_ids desired) []) (policy_ids current)

-- What is compared of the signing keys.
abbrev pub same_keys : Option SigningKeys → Option SigningKeys → Bool
same_keys none none = true
same_keys none (some c) = false
same_keys (some k) none = false
same_keys (some k) (some c) = k.current == c.current && k.previous == c.previous

is_empty-diff_peers :
    (desired current : List Peer) (d : StateDiff)
    → is_empty (diff_peers desired current d) ≡ (is_empty d && same_peers desired current)
unfolding diff_peers
is_empty-diff_peers desired current d =
    let cur = peers_by_id current [] in
    ground (
      arith,
      is_empty-note_peers cur desired d,
      is_empty-removed_peers (id_set (peer_ids desired) []) current
          (note_desired_peers cur desired d),
    )

is_empty-diff_policies :
    (desired current : List Policy) (d : StateDiff)
    → is_empty (diff_policies desired current d) ≡ (is_empty d && same_policies desired current)
unfolding diff_policies
is_empty-diff_policies desired current d =
    let cur = id_set (policy_ids current) [] in
    ground (
      arith,
      is_empty-note_policies cur desired d,
      is_empty-removed_policies (id_set (policy_ids desired) []) current
          (note_desired_policies cur desired d),
    )

is_empty-diff_signing_keys :
    (desired current : Option SigningKeys) (d : StateDiff)
    → is_empty (diff_signing_keys desired current d) ≡ (is_empty d && same_keys desired current)
unfolding diff_signing_keys is_empty
is_empty-diff_signing_keys none none d = ground arith
is_empty-diff_signing_keys none (some c) d = ground arith
is_empty-diff_signing_keys (some k) none d = ground arith
is_empty-diff_signing_keys (some k) (some c) d = ground arith

is_empty-diff_metadata :
    (desired current : GoMap String) (d : StateDiff)
    → is_empty (diff_metadata desired current d) ≡ (is_empty d && maps_equal desired current)
unfolding diff_metadata is_empty
is_empty-diff_metadata desired current d = ground arith

abbrev pub same_data : List DataEntry → List DataEntry → Bool
same_data desired current =
    not (versions_differ (data_versions desired []) (data_versions current []))

abbrev pub same_refs : List SecretRef → List SecretRef → Bool
same_refs desired current =
    not (versions_differ (secret_versions desired []) (secret_versions current []))

is_empty-diff_data :
    (desired current : List DataEntry) (d : StateDiff)
    → is_empty (diff_data desired current d) ≡ (is_empty d && same_data desired current)
unfolding diff_data is_empty
is_empty-diff_data desired current d = ground arith

is_empty-diff_secret_refs :
    (desired current : List SecretRef) (d : StateDiff)
    → is_empty (diff_secret_refs desired current d) ≡ (is_empty d && same_refs desired current)
unfolding diff_secret_refs is_empty
is_empty-diff_secret_refs desired current d = ground arith

and_chain :
    (a b c d e f : Bool)
    → ((((((true && a) && b) && c) && d) && e) && f) ≡ (a && (b && (c && (d && (e && f)))))
and_chain true true true true true f = refl
and_chain a b c d e f = ground arith

is_empty-zero_diff : is_empty zero_diff ≡ true
unfolding is_empty
is_empty-zero_diff = refl

-- A diff is empty exactly when every stage's test passes.
pub is_empty-diff_states :
    (d c : StateResponse)
    → is_empty (diff_states d c) ≡ (
        same_peers d.peers c.peers
        && (same_policies d.policies c.policies
            && (same_keys d.signing_keys c.signing_keys
                && (maps_equal d.metadata c.metadata
                    && (same_data d.entries c.entries && same_refs d.secret_refs c.secret_refs)))))
unfolding diff_states
is_empty-diff_states d c =
    rw
      (
        is_empty-diff_secret_refs, is_empty-diff_data, is_empty-diff_metadata,
        is_empty-diff_signing_keys, is_empty-diff_policies, is_empty-diff_peers, is_empty-zero_diff,
      )
      (and_chain (same_peers d.peers c.peers) (same_policies d.policies c.policies)
        (same_keys d.signing_keys c.signing_keys) (maps_equal d.metadata c.metadata)
        (same_data d.entries c.entries) (same_refs d.secret_refs c.secret_refs))
