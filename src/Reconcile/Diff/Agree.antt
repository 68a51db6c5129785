-- ===== src/Reconcile/Diff/Agree.antt =====
-- internal/reconcile/diff.go: the fields on which two states without drift agree.
use plexd.Base.{
  suc, String, List, [], ◌∷◌, Bool, true, false, ◌||◌, ◌==◌, eq_iff, eq_refl, eqb_iff, Option, none,
  some, if◌then◌else◌, arith, ◌≡◌, refl, ap, sym, ◌∙◌, contains, length, ◌↔◌,
}
use plexd.Base.GoMap.{GoMap, find, store, find-store}
use plexd.Base.Int.{ℤ}
use plexd.Api.Types.{Peer, Policy, SigningKeys, DataEntry, SecretRef, StateResponse}
use plexd.Reconcile.Diff.{
  is_empty, peer_changed, policy_ids, diff_states, data_versions, secret_versions,
  sorted_strings_equal, strings_equal, sort_strings, insert_string,
}
use plexd.Reconcile.Diff.Maps.{SameMap}
use plexd.Reconcile.Diff.Peers.{last_peer}
use plexd.Reconcile.Diff.Empty.{same_keys}
use plexd.Reconcile.Diff.Stages.{Unchanged, Unmoved, IsWellFormed, find-by_id, is_empty-Unmoved}

-- Two peers with the same key, addresses and preshared key, and the same allowed addresses once sorted.
pub record SamePeer (p c : Peer) : Type 0 where
  pub public_key : p.public_key ≡ c.public_key
  pub mesh_ip : p.mesh_ip ≡ c.mesh_ip
  pub endpoint : p.endpoint ≡ c.endpoint
  pub psk : p.psk ≡ c.psk
  pub allowed_ips : sort_strings p.allowed_ips ≡ sort_strings c.allowed_ips

abbrev pub BothPeers : Option Peer → Option Peer → Type 0
BothPeers none none = Unit
BothPeers none (some c) = ⊥
BothPeers (some p) none = ⊥
BothPeers (some p) (some c) = SamePeer p c

abbrev pub has_policy : String → List Policy → Bool
has_policy i [] = false
has_policy i (p ∷ ps) = p.id == i || has_policy i ps

-- The version of the last entry with a key.
abbrev pub data_version : String → List DataEntry → Option ℤ → Option ℤ
data_version k [] v = v
data_version k (e ∷ es) v = data_version k es (if e.key == k then some e.version else v)

abbrev pub secret_version : String → List SecretRef → Option ℤ → Option ℤ
secret_version k [] v = v
secret_version k (e ∷ es) v = secret_version k es (if e.key == k then some e.version else v)

-- The two keys in use; whether there are keys at all counts as well.
abbrev pub SameKeys : Option SigningKeys → Option SigningKeys → Type 0
SameKeys none none = Unit
SameKeys none (some c) = ⊥
SameKeys (some d) none = ⊥
SameKeys (some d) (some c) = (d.current ≡ c.current) × (d.previous ≡ c.previous)

-- No drift: the states have the same last peer under each id, the same ids of policies, the same
-- signing keys and metadata, and the same versions of the data and of the secrets.
pub record Agree (d c : StateResponse) : Type 0 where
  pub peers : (i : String) → BothPeers (last_peer i d.peers) (last_peer i c.peers)
  pub policies : (i : String) → has_policy i d.policies ≡ has_policy i c.policies
  pub keys : SameKeys d.signing_keys c.signing_keys
  pub metadata : SameMap d.metadata c.metadata
  pub entries : (k : String) → data_version k d.entries none ≡ data_version k c.entries none
  pub secrets :
      (k : String) → secret_version k d.secret_refs none ≡ secret_version k c.secret_refs none

strings_equal-equal : (a b : List String) → strings_equal a b ≡ true → a ≡ b
unfolding strings_equal
strings_equal-equal [] [] h = refl
strings_equal-equal [] (t ∷ b) h = absurd (ground arith)
strings_equal-equal (s ∷ a) [] h = absurd (ground arith)
strings_equal-equal (s ∷ a) (t ∷ b) h =
    let head : s ≡ t = ground (arith, eq_iff s t) in
    let tail : a ≡ b = strings_equal-equal a b (ground arith) in rw (head, tail) refl

strings_equal_refl : (a : List String) → strings_equal a a ≡ true
unfolding strings_equal
strings_equal_refl [] = refl
strings_equal_refl (s ∷ a) = rw (eq_refl, strings_equal_refl a) refl

length-insert_string :
    (s : String) (ts : List String) → length (insert_string s ts) ≡ suc (length ts)
unfolding insert_string
length-insert_string s [] = refl
length-insert_string s (t ∷ ts) = ground (arith, length-insert_string s ts)

length-sort_strings : (ss : List String) → length (sort_strings ss) ≡ length ss
unfolding sort_strings
length-sort_strings [] = refl
length-sort_strings (s ∷ ss) =
    omega (arith, length-insert_string s (sort_strings ss), length-sort_strings ss)

sorted_strings_equal_iff :
    (a b : List String) → (sorted_strings_equal a b ≡ true) ↔ (sort_strings a ≡ sort_strings b)
unfolding sorted_strings_equal
sorted_strings_equal_iff a b = (
  λ h. strings_equal-equal (sort_strings a) (sort_strings b) (ground arith),
  λ e.
      (let same : length a ≡ length b =
          omega (arith, length-sort_strings a, length-sort_strings b, ap (length {0}) e) in
        let equal : strings_equal (sort_strings a) (sort_strings b) ≡ true =
          rw e (strings_equal_refl (sort_strings b)) in
        ground (arith, eqb_iff (length a) (length b))),
)

peer_changed_iff : (p c : Peer) → (peer_changed p c ≡ false) ↔ SamePeer p c
unfolding peer_changed
peer_changed_iff p c = (
  λ h. record {
    public_key = ground (arith, eq_iff p.public_key c.public_key);
    mesh_ip = ground (arith, eq_iff p.mesh_ip c.mesh_ip);
    endpoint = ground (arith, eq_iff p.endpoint c.endpoint);
    psk = ground (arith, eq_iff p.psk c.psk);
    allowed_ips = (sorted_strings_equal_iff p.allowed_ips c.allowed_ips).0 (ground arith);
  },
  λ s.
      (let k = (eq_iff p.public_key c.public_key).1 s.public_key in
        let m = (eq_iff p.mesh_ip c.mesh_ip).1 s.mesh_ip in
        let e = (eq_iff p.endpoint c.endpoint).1 s.endpoint in
        let z = (eq_iff p.psk c.psk).1 s.psk in
        let a = (sorted_strings_equal_iff p.allowed_ips c.allowed_ips).1 s.allowed_ips in
        ground arith),
)

Unchanged-iff : (p c : Option Peer) → Unchanged p c ↔ BothPeers p c
Unchanged-iff none none = (λ u. u, λ u. u)
Unchanged-iff none (some c) = (λ u. u, λ u. u)
Unchanged-iff (some p) none = (λ u. u, λ u. u)
Unchanged-iff (some p) (some c) = peer_changed_iff p c

has_policy_lem : (i : String) (ps : List Policy) → contains i (policy_ids ps) ≡ has_policy i ps
unfolding policy_ids
has_policy_lem i [] = refl
has_policy_lem i (p ∷ ps) = ground (arith, has_policy_lem i ps)

same_keys_iff : (d c : Option SigningKeys) → (same_keys d c ≡ true) ↔ SameKeys d c
same_keys_iff none none = (λ h. tt, λ h. refl)
same_keys_iff none (some c) = (λ h. ground arith, λ h. absurd h)
same_keys_iff (some d) none = (λ h. ground arith, λ h. absurd h)
same_keys_iff (some d) (some c) = (
  λ h. (ground (arith, eq_iff d.current c.current), ground (arith, eq_iff d.previous c.previous)),
  λ h.
      (let a = (eq_iff d.current c.current).1 h.0 in
        let b = (eq_iff d.previous c.previous).1 h.1 in ground arith),
)

find-data_versions :
    (k : String) (es : List DataEntry) (m : GoMap ℤ)
    → find k (data_versions es m) ≡ data_version k es (find k m)
unfolding data_versions
find-data_versions k [] m = refl
find-data_versions k (e ∷ es) m =
    find-data_versions k es (store e.key e.version m)
    ∙ ap (data_version k es) (find-store e.key k e.version m)

find-secret_versions :
    (k : String) (es : List SecretRef) (m : GoMap ℤ)
    → find k (secret_versions es m) ≡ secret_version k es (find k m)
unfolding secret_versions
find-secret_versions k [] m = refl
find-secret_versions k (e ∷ es) m =
    find-secret_versions k es (store e.key e.version m)
    ∙ ap (secret_version k es) (find-store e.key k e.version m)

Unmoved-Agree : (d c : StateResponse) → Unmoved d c → Agree d c
unfolding find
Unmoved-Agree d c u = record {
  peers = λ i.
      (Unchanged-iff (last_peer i d.peers) (last_peer i c.peers)).0
        (rw (find-by_id, find-by_id) at (u.peers i));
  policies = λ i. sym (has_policy_lem i d.policies) ∙ u.policies i ∙ has_policy_lem i c.policies;
  keys = (same_keys_iff d.signing_keys c.signing_keys).0 u.keys;
  metadata = u.metadata;
  entries = λ k.
      sym (find-data_versions k d.entries []) ∙ u.entries k ∙ find-data_versions k c.entries [];
  secrets = λ k.
      sym (find-secret_versions k d.secret_refs [])
      ∙ u.secrets k
      ∙ find-secret_versions k c.secret_refs [];
}

Agree-Unmoved : (d c : StateResponse) → Agree d c → Unmoved d c
unfolding find
Agree-Unmoved d c a = record {
  peers = λ i.
      rw (find-by_id, find-by_id)
        ((Unchanged-iff (last_peer i d.peers) (last_peer i c.peers)).1 (a.peers i));
  policies = λ i. has_policy_lem i d.policies ∙ a.policies i ∙ sym (has_policy_lem i c.policies);
  keys = (same_keys_iff d.signing_keys c.signing_keys).1 a.keys;
  metadata = a.metadata;
  entries = λ k.
      find-data_versions k d.entries [] ∙ a.entries k ∙ sym (find-data_versions k c.entries []);
  secrets = λ k.
      find-secret_versions k d.secret_refs []
      ∙ a.secrets k
      ∙ sym (find-secret_versions k c.secret_refs []);
}

-- Between two states with distinct peer ids and metadata keys, the diff is empty exactly when the states
-- agree: on the last peer under each id, by public key, mesh address, endpoint, preshared key and
-- sorted allowed addresses, on the ids of the policies, on the two signing keys, on the metadata, and on
-- the last version under each key of the data and of the secrets.
pub is_empty_iff :
    (d c : StateResponse)
    → IsWellFormed d
    → IsWellFormed c
    → (is_empty (diff_states d c) ≡ true) ↔ Agree d c
is_empty_iff d c wd wc =
    let u = is_empty-Unmoved d c wd wc in
    (λ h. Unmoved-Agree d c (u.0 h), λ a. u.1 (Agree-Unmoved d c a))

SamePeer-self : (p : Peer) → SamePeer p p
SamePeer-self p = record {
  public_key = refl;
  mesh_ip = refl;
  endpoint = refl;
  psk = refl;
  allowed_ips = refl;
}

BothPeers-self : (o : Option Peer) → BothPeers o o
BothPeers-self none = tt
BothPeers-self (some p) = SamePeer-self p

SameKeys-self : (k : Option SigningKeys) → SameKeys k k
SameKeys-self none = tt
SameKeys-self (some k) = (refl, refl)

pub Agree-self : (s : StateResponse) → Agree s s
Agree-self s = record {
  peers = λ i. BothPeers-self (last_peer i s.peers);
  policies = λ i. refl;
  keys = SameKeys-self s.signing_keys;
  metadata = λ i. refl;
  entries = λ k. refl;
  secrets = λ k. refl;
}
