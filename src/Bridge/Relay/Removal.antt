-- ===== src/Bridge/Relay/Removal.antt =====
-- internal/bridge/relay.go: the maps of the relay when sessions are removed.
use mathlib.Core.Path.{subst}
use plexd.Base.{
  ℕ, ◌<◌, String, List, [], ◌∷◌, Bool, true, false, not, ◌==◌, eq_iff, eqb_iff, Option, none, some,
  if◌then◌else◌, arith, ◌≡◌, ◌⊎◌, inl, inr, refl, ap, sym, ◌∙◌, eq_refl, Bool-cases, Option-cases,
  String-cases,
}
use plexd.Base.GoMap.{
  GoMap, find, has, delete, Distinct, has-delete, find-delete_cases, find-delete_other,
  delete-Distinct, has_of_find, length-delete-le,
}
use plexd.Bridge.Relay.Index.{HasAddr, IsWellFormed}
use plexd.Bridge.Relay.{
  close_all, RelaySession, Relay, is_closed, close, start, remove_session, stop,
}

module _ (r : Relay) (w : IsWellFormed r) (id : String) (s : RelaySession)
    (at : find id r.sessions ≡ some s) where
  abbrev without : Relay
  without = record r {
    timers = delete id r.timers;
    addr_index = delete s.peer_b_addr (delete s.peer_a_addr r.addr_index);
    sessions = delete id r.sessions;
    closed = close s r.closed;
  }

  is_closed-close :
      (ref : ℕ)
      → is_closed ref (close s r.closed) ≡ true
      → (s.ref ≡ ref) ⊎ (is_closed ref r.closed ≡ true)
  unfolding close
  is_closed-close ref h = ground (arith, eqb_iff s.ref ref)

  elsewhere :
      (x : String) (t : RelaySession)
      → (s.peer_a_addr == x) ≡ false
      → (s.peer_b_addr == x) ≡ false
      → find t.session_id r.sessions ≡ some t
      → HasAddr t x
      → find t.session_id without.sessions ≡ some t
  elsewhere x t not_a not_b there addr = elim (String-cases id t.session_id) [
    | inl (_, e) ↦ absurd (
        let same : t ≡ s =
          some_inj (sym there ∙ ap (λ (i : String). find i r.sessions) (sym e) ∙ at) in
        no_addr (subst (λ u. HasAddr u x) same addr))
    | inr (other, _) ↦ find-delete_other id t.session_id r.sessions other ∙ there
  ]
    where
      some_inj : {u v : RelaySession} → some u ≡ some v → u ≡ v
      some_inj e = cc

      no_addr : HasAddr s x → ⊥
      no_addr h = ground (arith, eq_iff s.peer_a_addr x, eq_iff s.peer_b_addr x)

  still_open :
      (i : String) (t : RelaySession)
      → (id == i) ≡ false
      → find i r.sessions ≡ some t
      → is_closed t.ref r.closed ≡ false
      → is_closed t.ref without.closed ≡ false
  still_open i t other old open_ = elim (Bool-cases (is_closed t.ref (close s r.closed))) [
    | inl e ↦ absurd (elim (is_closed-close t.ref e) [
      | inl same ↦ (let k = w.apart id i s t at old same in ground (arith, eq_iff id i))
      | inr was ↦ (ground arith)
    ])
    | inr e ↦ e
  ]

  without-indexed :
      (x : String) (t : RelaySession)
      → find x without.addr_index ≡ some t
      → (find t.session_id without.sessions ≡ some t) × HasAddr t x
  without-indexed x t h =
      let (not_b, h₁) = find-delete_cases s.peer_b_addr x t (delete s.peer_a_addr r.addr_index) h in
      let (not_a, h₂) = find-delete_cases s.peer_a_addr x t r.addr_index h₁ in
      let (there, addr) = w.indexed x t h₂ in (elsewhere x t not_a not_b there addr, addr)

  without-live :
      (i : String) (t : RelaySession)
      → find i without.sessions ≡ some t
      → (t.session_id ≡ i) × (is_closed t.ref without.closed ≡ false) × (t.ref < r.next_ref)
  without-live i t h =
      let (other, old) = find-delete_cases id i t r.sessions h in
      let (same, open_, lt) = w.live i t old in (same, still_open i t other old open_, lt)

  without-made : (ref : ℕ) → is_closed ref without.closed ≡ true → ref < r.next_ref
  without-made ref h = elim (is_closed-close ref h) [
    | inl same ↦ (let (_, _, lt) = w.live id s at in omega arith)
    | inr was ↦ w.made ref was
  ]

  without-IsWellFormed : IsWellFormed without
  without-IsWellFormed = record {
    indexed = without-indexed;
    live = without-live;
    apart = λ i j x y hx hy e.
        w.apart i j x y (find-delete_cases id i x r.sessions hx).1
          (find-delete_cases id j y r.sessions hy).1 e;
    made = without-made;
    timed = λ i. ground (arith, has-delete id i r.timers, has-delete id i r.sessions, w.timed i);
    distinct = delete-Distinct id r.sessions w.distinct;
    bounded = (let n = length-delete-le id r.sessions in let m = w.bounded in omega arith);
  }

pub remove_session-IsWellFormed :
    (id : String) (r : Relay) → IsWellFormed r → IsWellFormed (remove_session id r)
unfolding remove_session
remove_session-IsWellFormed id r w = elim (Option-cases (find id r.sessions)) [
  | inl e ↦ rw (e, remove_session) w
  | inr (s, at) ↦ rw (at, remove_session) (without-IsWellFormed r w id s at)
]

close_all-made :
    (m : GoMap RelaySession) (next : ℕ) (closed : List ℕ)
    → ((id : String) (s : RelaySession) → find id m ≡ some s → s.ref < next)
    → Distinct m
    → ((ref : ℕ) → is_closed ref closed ≡ true → ref < next)
    → (ref : ℕ) → is_closed ref (close_all m closed) ≡ true
    → ref < next
unfolding close_all close find has
close_all-made [] next closed below d made ref h = made ref h
close_all-made ((id, s) ∷ m) next closed below d made ref h =
    close_all-made m next (close s closed) rest d.1 made_s ref h
  where
    rest : (j : String) (t : RelaySession) → find j m ≡ some t → t.ref < next
    rest j t at = elim (String-cases id j) [
      | inl (_, e) ↦ absurd (
          let y = has_of_find j m t at in
          let n = d.0 in ground (arith, ap (λ (i : String). has i m) e))
      | inr (other, _) ↦ below j t (rw other at)
    ]

    made_s : (k : ℕ) → is_closed k (close s closed) ≡ true → k < next
    made_s k h = (let b = below id s (rw eq_refl refl) in ground (arith, eqb_iff s.ref k, made k))

pub stop-IsWellFormed : (r : Relay) → IsWellFormed r → IsWellFormed (stop r)
unfolding stop find has
stop-IsWellFormed r w = go r.active
  where
    stopped : Relay
    stopped = record r {
      active = false;
      timers = [];
      sessions = [];
      addr_index = [];
      conn = none;
      closed = close_all r.sessions r.closed;
    }

    go : (b : Bool) → IsWellFormed (if not b then r else stopped)
    go false = w
    go true = record {
      indexed = λ a s h. absurd (ground arith);
      live = λ id s h. absurd (ground arith);
      apart = λ i j s t h k e. absurd (ground arith);
      made =
          close_all-made r.sessions r.next_ref r.closed (λ id s at. (w.live id s at).2) w.distinct
            w.made;
      timed = λ id. refl;
      distinct = tt;
      bounded = omega arith;
    }

pub start-IsWellFormed :
    (socket : Option ℕ) (r s : Relay) → IsWellFormed r → start socket r ≡ some s → IsWellFormed s
unfolding start
start-IsWellFormed none r s w h = absurd (ground arith)
start-IsWellFormed (some k) r s w h = subst IsWellFormed (inj h) (record {
  indexed = w.indexed;
  live = w.live;
  apart = w.apart;
  made = w.made;
  timed = w.timed;
  distinct = w.distinct;
  bounded = w.bounded;
})
  where
    inj : {x y : Relay} → some x ≡ some y → x ≡ y
    inj e = cc
