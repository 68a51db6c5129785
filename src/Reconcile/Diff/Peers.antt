-- ===== src/Reconcile/Diff/Peers.antt =====
-- internal/reconcile/diff.go, diffPeers: the peer changes of a diff, applied to the current peers as
-- the WireGuard handler does (removals, updates, additions).
use mathlib.Core.List.{append_assoc, append-nil}
use plexd.Base.{
  String, List, [], ◌∷◌, ◌++◌, true, false, not, ◌&&◌, ◌||◌, ◌==◌, Option, none, some, arith, ◌≡◌,
  refl, ap, sym, ◌∙◌, contains, NoRepeats, if◌then◌else◌, String-cases, inl, inr,
}
use plexd.Base.GoMap.{GoMap, find, has, store, delete, find-store, find-delete, has-store}
use plexd.Api.Types.{Peer}
use plexd.Reconcile.Diff.{
  StateDiff, zero_diff, peer_changed, peers_by_id, peer_ids, id_set, note_desired_peer,
  note_desired_peers, note_removed_peers, diff_peers,
}

abbrev pub or_else : Option Peer → Option Peer → Option Peer
or_else (some p) o = some p
or_else none o = o

-- The last peer of the slice with this id: what the map by id holds.
unfoldable pub last_peer : String → List Peer → Option Peer
last_peer i [] = none
last_peer i (p ∷ ps) = or_else (last_peer i ps) (if p.id == i then some p else none)

pub find-peers_by_id :
    (i : String) (ps : List Peer) (m : GoMap Peer)
    → find i (peers_by_id ps m) ≡ or_else (last_peer i ps) (find i m)
unfolding peers_by_id last_peer
find-peers_by_id i [] m = refl
find-peers_by_id i (p ∷ ps) m =
    ground (arith, find-peers_by_id i ps (store p.id p m), find-store p.id i p m)

pub has-id_set :
    (i : String) (is : List String) (m : GoMap (Unit {0}))
    → has i (id_set is m) ≡ (contains i is || has i m)
unfolding id_set
has-id_set i [] m = refl
has-id_set i (j ∷ is) m = ground (arith, has-id_set i is (store j tt m), has-store j i tt m)

-- The desired peers that are new, and those that have changed.
fresh : GoMap Peer → List Peer → List Peer
fresh cur [] = []
fresh cur (p ∷ ps) = elim (find p.id cur) [ none ↦ p ∷ fresh cur ps | some c ↦ fresh cur ps ]

changed : GoMap Peer → List Peer → List Peer
changed cur [] = []
changed cur (p ∷ ps) = elim (find p.id cur) [
  | none ↦ changed cur ps
  | some c ↦ if peer_changed p c then p ∷ changed cur ps else changed cur ps
]

gone : GoMap (Unit {0}) → List Peer → List String
gone des [] = []
gone des (c ∷ cs) = if has c.id des then gone des cs else c.id ∷ gone des cs

to_add-note :
    (cur : GoMap Peer) (ps : List Peer) (d : StateDiff)
    → (note_desired_peers cur ps d).peers_to_add ≡ d.peers_to_add ++ fresh cur ps
unfolding note_desired_peers note_desired_peer fresh
to_add-note cur [] d = sym (append-nil _)
to_add-note cur (p ∷ ps) d = ground (
  arith,
  to_add-note cur ps (note_desired_peer cur p d),
  append_assoc d.peers_to_add (p ∷ []) (fresh cur ps),
)

to_update-note :
    (cur : GoMap Peer) (ps : List Peer) (d : StateDiff)
    → (note_desired_peers cur ps d).peers_to_update ≡ d.peers_to_update ++ changed cur ps
unfolding note_desired_peers note_desired_peer changed
to_update-note cur [] d = sym (append-nil _)
to_update-note cur (p ∷ ps) d = ground (
  arith,
  to_update-note cur ps (note_desired_peer cur p d),
  append_assoc d.peers_to_update (p ∷ []) (changed cur ps),
)

to_remove-note :
    (cur : GoMap Peer) (ps : List Peer) (d : StateDiff)
    → (note_desired_peers cur ps d).peers_to_remove ≡ d.peers_to_remove
unfolding note_desired_peers note_desired_peer
to_remove-note cur [] d = refl
to_remove-note cur (p ∷ ps) d = ground (arith, to_remove-note cur ps (note_desired_peer cur p d))

abbrev without_removal : GoMap (Unit {0}) → Peer → StateDiff → StateDiff
without_removal des c d =
    if has c.id des then d else record d { peers_to_remove = d.peers_to_remove ++ c.id ∷ [] }

to_remove-removed :
    (des : GoMap (Unit {0})) (cs : List Peer) (d : StateDiff)
    → (note_removed_peers des cs d).peers_to_remove ≡ d.peers_to_remove ++ gone des cs
unfolding note_removed_peers gone
to_remove-removed des [] d = sym (append-nil _)
to_remove-removed des (c ∷ cs) d = ground (
  arith,
  to_remove-removed des cs (without_removal des c d),
  append_assoc d.peers_to_remove (c.id ∷ []) (gone des cs),
)

others-removed :
    (des : GoMap (Unit {0})) (cs : List Peer) (d : StateDiff)
    → ((note_removed_peers des cs d).peers_to_add ≡ d.peers_to_add)
      × ((note_removed_peers des cs d).peers_to_update ≡ d.peers_to_update)
unfolding note_removed_peers
others-removed des [] d = (refl, refl)
others-removed des (c ∷ cs) d = ground (arith, others-removed des cs (without_removal des c d))

last_peer-fresh :
    (i : String) (cur : GoMap Peer) (ps : List Peer)
    → last_peer i (fresh cur ps) ≡ elim (find i cur) [ none ↦ last_peer i ps | some c ↦ none ]
unfolding last_peer fresh
last_peer-fresh i cur [] = ground arith
last_peer-fresh i cur (p ∷ ps) = elim (String-cases p.id i) [
  | inl (same, e) ↦ ground (arith, last_peer-fresh i cur ps, ap (λ (s : String). find s cur) e)
  | inr (other, n) ↦ ground (arith, last_peer-fresh i cur ps)
]

pub contains-peer_ids :
    (i : String) (ps : List Peer)
    → contains i (peer_ids ps) ≡ elim (last_peer i ps) [ none ↦ false | some p ↦ true ]
unfolding last_peer peer_ids
contains-peer_ids i [] = refl
contains-peer_ids i (p ∷ ps) = ground (arith, contains-peer_ids i ps)

contains-gone :
    (i : String) (des : GoMap (Unit {0})) (cs : List Peer)
    → contains i (gone des cs) ≡ (contains i (peer_ids cs) && not (has i des))
unfolding gone peer_ids
contains-gone i des [] = refl
contains-gone i des (c ∷ cs) = elim (String-cases c.id i) [
  | inl (same, e) ↦ ground (arith, contains-gone i des cs, ap (λ (s : String). has s des) e)
  | inr (other, n) ↦ ground (arith, contains-gone i des cs)
]

-- What the diff plans for one id: the desired peer, or the current one if nothing has changed.
abbrev update_for : Option Peer → Peer → Option Peer
update_for none p = none
update_for (some c) p = if peer_changed p c then some p else none

last_peer-changed :
    (i : String) (cur : GoMap Peer) (ps : List Peer)
    → NoRepeats (peer_ids ps)
    → last_peer i (changed cur ps)
      ≡ elim (last_peer i ps) [ none ↦ none | some p ↦ update_for (find i cur) p ]
unfolding last_peer changed peer_ids
last_peer-changed i cur [] n = refl
last_peer-changed i cur (p ∷ ps) n = elim (String-cases p.id i) [
  | inl (same, e) ↦ ground (
    arith,
    last_peer-changed i cur ps n.1,
    contains-peer_ids i ps,
    ap (λ (s : String). find s cur) e,
    ap (λ (s : String). contains s (peer_ids ps)) e,
  )
  | inr (other, o) ↦ ground (arith, last_peer-changed i cur ps n.1)
]

delete_all : List String → GoMap Peer → GoMap Peer
delete_all [] m = m
delete_all (i ∷ is) m = delete_all is (delete i m)

find-delete_all :
    (i : String) (is : List String) (m : GoMap Peer)
    → find i (delete_all is m) ≡ (if contains i is then none else find i m)
unfolding delete_all
find-delete_all i [] m = refl
find-delete_all i (j ∷ is) m = ground (arith, find-delete_all i is (delete j m), find-delete j i m)

-- The handler's order: removals, then updates, then additions.
pub apply_peers : StateDiff → GoMap Peer → GoMap Peer
apply_peers d m =
    peers_by_id d.peers_to_add (peers_by_id d.peers_to_update (delete_all d.peers_to_remove m))

-- What a map holds under an id after the diff has been applied: nothing if the peer is not desired,
-- the current peer if it is equal to the desired one in all that is compared, else the desired one.
pub planned : Option Peer → Option Peer → Option Peer
planned none c = none
planned (some p) none = some p
planned (some p) (some c) = if peer_changed p c then some p else some c

parts :
    (desired current : List Peer)
    → let d = diff_peers desired current zero_diff in
      let cur = peers_by_id current [] in
      (d.peers_to_add ≡ fresh cur desired)
      × (d.peers_to_update ≡ changed cur desired)
      × (d.peers_to_remove ≡ gone (id_set (peer_ids desired) []) current)
unfolding diff_peers
parts desired current =
    let cur = peers_by_id current [] in
    let noted = note_desired_peers cur desired zero_diff in
    let (adds, updates) = others-removed (id_set (peer_ids desired) []) current noted in
    (
      adds ∙ to_add-note cur desired zero_diff,
      updates ∙ to_update-note cur desired zero_diff,
      to_remove-removed (id_set (peer_ids desired) []) current noted
          ∙ ap (λ (l : List String). l ++ gone (id_set (peer_ids desired) []) current)
              (to_remove-note cur desired zero_diff),
    )

applied :
    (desired current : List Peer) (i : String)
    → NoRepeats (peer_ids desired)
    → let cur = peers_by_id current [] in
      find i (
        peers_by_id (fresh cur desired) (
          peers_by_id
            (changed cur desired)
            (delete_all (gone (id_set (peer_ids desired) []) current) cur)))
      ≡ planned (last_peer i desired) (last_peer i current)
unfolding planned find has
applied desired current i n =
    let cur = peers_by_id current [] in
    let des = id_set (peer_ids desired) [] in
    let removed = gone des current in
    ground (
      arith,
      find-peers_by_id i (fresh cur desired)
          (peers_by_id (changed cur desired) (delete_all removed cur)),
      find-peers_by_id i (changed cur desired) (delete_all removed cur),
      find-delete_all i removed cur,
      find-peers_by_id i current [],
      last_peer-fresh i cur desired,
      last_peer-changed i cur desired n,
      contains-gone i des current,
      has-id_set i (peer_ids desired) [],
      contains-peer_ids i desired,
      contains-peer_ids i current,
    )

-- If no id stands twice among the desired peers, then applying the diff to the map of the current
-- peers gives, for every id, the desired peer, the current peer where the two do not differ in what
-- is compared, and nothing where the id is not desired.
pub diff_peers-apply :
    (desired current : List Peer) (i : String)
    → NoRepeats (peer_ids desired)
    → find i (apply_peers (diff_peers desired current zero_diff) (peers_by_id current []))
      ≡ planned (find i (peers_by_id desired [])) (find i (peers_by_id current []))
unfolding apply_peers find
diff_peers-apply desired current i n =
    let (adds, updates, removes) = parts desired current in
    rw (adds, updates, removes)
      (ground (
        arith,
        applied desired current i n,
        find-peers_by_id i desired [],
        find-peers_by_id i current [],
      ))
