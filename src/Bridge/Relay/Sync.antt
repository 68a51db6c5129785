-- ===== src/Bridge/Relay/Sync.antt =====
-- internal/bridge/relay_handler.go: the sessions after a reconciliation.
use plexd.Base.{
  ℕ, String, List, [], ◌∷◌, Bool, true, false, not, ◌&&◌, ◌||◌, ◌==◌, eq_iff, Option, none, some,
  if◌then◌else◌, contains, length, leb, arith, ◌≡◌, inl, inr, refl, ap, sym, ◌∙◌, Bool-cases,
  Option-cases, String-cases,
}
use plexd.Base.GoMap.{
  GoMap, find, has, store, keys, has-store, find-store_other, find-delete, has_of_find, has_of_none,
  contains-keys, has-true, has-false,
}
use plexd.Api.Types.{RelaySessionAssignment, RelayConfig}
use plexd.Bridge.Relay.{
  Relay, RelayError, register, add_session, remove_session, desired_set, remove_stale, add_missing,
  reconcile_sessions,
}
use plexd.Bridge.Relay.Index.{add_session-Adds}

find-remove_session :
    (i j : String) (r : Relay)
    → find j (remove_session i r).sessions ≡ (if i == j then none else find j r.sessions)
unfolding remove_session
find-remove_session i j r = elim (Option-cases (find i r.sessions)) [
  | inl e ↦ elim (String-cases i j) [
    | inl (same, ij) ↦
        rw (e, same, remove_session) (ap (λ (k : String). find k r.sessions) (sym ij) ∙ e)
    | inr (other, _) ↦ rw (e, other, remove_session) refl
  ]
  | inr (s, at) ↦ rw (at, remove_session) (find-delete i j r.sessions)
]

find-remove_stale :
    (ids : List String) (desired : GoMap RelaySessionAssignment) (j : String) (r : Relay)
    → find j (remove_stale ids desired r).sessions
      ≡ (if contains j ids && not (has j desired) then none else find j r.sessions)
unfolding remove_stale
find-remove_stale [] desired j r = refl
find-remove_stale (i ∷ ids) desired j r = elim (Bool-cases (has i desired)) [
  | inl wanted ↦
      rw (wanted, remove_stale)
        (find-remove_stale ids desired j r
          ∙ ground (arith, eq_iff i j, ap (λ (k : String). has k desired)))
  | inr stale ↦
      rw (stale, remove_stale)
        (find-remove_stale ids desired j (remove_session i r)
          ∙ ground
              (arith, eq_iff i j, find-remove_session i j r, ap (λ (k : String). has k desired)))
]

-- Some assignment of the list has the session id.
abbrev pub assigned : String → List RelaySessionAssignment → Bool
assigned id [] = false
assigned id (a ∷ l) = a.session_id == id || assigned id l

module _ (resolve : String → Option String) where
  find-register :
      (a : RelaySessionAssignment) (x y j : String) (now : ℕ) (r : Relay)
      → (a.session_id == j) ≡ false
      → find j (register a x y now r).0.sessions ≡ find j r.sessions
  unfolding register
  find-register a x y j now r other = elim (Bool-cases (has a.session_id r.sessions)) [
    | inl e ↦ rw (e, register) refl
    | inr new ↦ elim (Bool-cases (leb r.max_sessions (length r.sessions))) [
      | inl e ↦ rw (new, e, register) refl
      | inr room ↦ rw (new, room, register) (find-store_other a.session_id j _ r.sessions other)
    ]
  ]

  has-register :
      (a : RelaySessionAssignment) (x y j : String) (now : ℕ) (r : Relay)
      → (register a x y now r).1 ≡ none
      → has j (register a x y now r).0.sessions ≡ (a.session_id == j || has j r.sessions)
  unfolding register
  has-register a x y j now r ok = elim (Bool-cases (has a.session_id r.sessions)) [
    | inl e ↦ absurd (ground arith)
    | inr new ↦ elim (Bool-cases (leb r.max_sessions (length r.sessions))) [
      | inl e ↦ absurd (ground arith)
      | inr room ↦ rw (new, room, register) (has-store a.session_id j _ r.sessions)
    ]
  ]

  find-add_session :
      (a : RelaySessionAssignment) (j : String) (now : ℕ) (r : Relay)
      → (a.session_id == j) ≡ false
      → find j (add_session resolve a now r).0.sessions ≡ find j r.sessions
  find-add_session a j now r other = elim (add_session-Adds resolve a now r) [
    | inl (same, _) ↦ rw same refl
    | inr (x, y, _, _, _, _, e) ↦ rw e (find-register a x y j now r other)
  ]

  has-add_session :
      (a : RelaySessionAssignment) (j : String) (now : ℕ) (r : Relay)
      → (add_session resolve a now r).1 ≡ none
      → has j (add_session resolve a now r).0.sessions ≡ (a.session_id == j || has j r.sessions)
  has-add_session a j now r ok = elim (add_session-Adds resolve a now r) [
    | inl (_, err) ↦ absurd (err ok)
    | inr (x, y, _, _, _, _, e) ↦ rw e (has-register a x y j now r (rw e at ok))
  ]

  -- Each assignment stands under its own session id.
  abbrev Keyed : GoMap RelaySessionAssignment → Type 0
  Keyed [] = Unit
  Keyed ((id, a) ∷ m) = (a.session_id ≡ id) × Keyed m

  -- A session that is there before is not touched.
  find-add_missing :
      (m : GoMap RelaySessionAssignment) (current : List String) (now : String → ℕ) (j : String)
      (r : Relay)
      → Keyed m
      → contains j current ≡ true
      → find j (add_missing resolve m current now r).0.sessions ≡ find j r.sessions
  unfolding add_missing
  find-add_missing [] current now j r keyed old = refl
  find-add_missing ((id, a) ∷ m) current now j r keyed old =
      elim (Bool-cases (contains id current)) [
        | inl there ↦ rw (there, add_missing) (find-add_missing m current now j r keyed.1 old)
        | inr missing ↦
            rw (missing, add_missing)
              (find-add_missing m current now j (add_session resolve a (now id) r).0 keyed.1 old
                ∙ find-add_session a j (now id) r (apart missing))
      ]
    where
      apart : contains id current ≡ false → (a.session_id == j) ≡ false
      apart missing =
          ground (arith, eq_iff a.session_id j, keyed.0, ap (λ (k : String). contains k current))

  has-add_missing :
      (m : GoMap RelaySessionAssignment) (current : List String) (now : String → ℕ) (j : String)
      (r : Relay)
      → Keyed m
      → (add_missing resolve m current now r).1 ≡ []
      → has j (add_missing resolve m current now r).0.sessions
        ≡ (has j r.sessions || (has j m && not (contains j current)))
  unfolding add_missing has
  has-add_missing [] current now j r keyed ok = ground arith
  has-add_missing ((id, a) ∷ m) current now j r keyed ok = elim (Bool-cases (contains id current)) [
    | inl there ↦
        rw (there, add_missing)
          (has-add_missing m current now j r keyed.1 (rw (there, add_missing) at ok)
            ∙ ground (arith, eq_iff id j, ap (λ (k : String). contains k current)))
    | inr missing ↦
        rw (missing, add_missing)
          (let (added, rest) =
              no_errors (add_session resolve a (now id) r).1
                (add_missing resolve m current now (add_session resolve a (now id) r).0).1
                (rw (missing, add_missing) at ok) in
            has-add_missing m current now j (add_session resolve a (now id) r).0 keyed.1 rest
            ∙ ground (
              arith,
              has-add_session a j (now id) r added,
              eq_iff id j,
              keyed.0,
              ap (λ (k : String). contains k current),
              ap (λ (k : String). k == j),
            ))
  ]
    where
      no_errors :
          (e : Option RelayError) (es : List RelayError)
          → elim e [ none ↦ es | some x ↦ x ∷ es ] ≡ []
          → (e ≡ none) × (es ≡ [])
      no_errors none es h = (refl, h)
      no_errors (some x) es h = absurd (ground arith)

  store-Keyed :
      (a : RelaySessionAssignment) (m : GoMap RelaySessionAssignment)
      → Keyed m
      → Keyed (store a.session_id a m)
  unfolding store
  store-Keyed a [] keyed = (refl, tt)
  store-Keyed a ((id, b) ∷ m) keyed = elim (Bool-cases (id == a.session_id)) [
    | inl e ↦ rw e (refl, keyed.1)
    | inr e ↦ rw e (keyed.0, store-Keyed a m keyed.1)
  ]

  desired_set-Keyed :
      (l : List RelaySessionAssignment) (m : GoMap RelaySessionAssignment)
      → Keyed m
      → Keyed (desired_set l m)
  unfolding desired_set
  desired_set-Keyed [] m keyed = keyed
  desired_set-Keyed (a ∷ l) m keyed =
      desired_set-Keyed l (store a.session_id a m) (store-Keyed a m keyed)

  has-desired_set :
      (l : List RelaySessionAssignment) (m : GoMap RelaySessionAssignment) (j : String)
      → has j (desired_set l m) ≡ (assigned j l || has j m)
  unfolding desired_set
  has-desired_set [] m j = refl
  has-desired_set (a ∷ l) m j =
      has-desired_set l (store a.session_id a m) j ∙ ground (arith, has-store a.session_id j a m)

  has_eq : {V : Type 0} (j : String) (m n : GoMap V) → find j m ≡ find j n → has j m ≡ has j n
  has_eq j m n e = elim (Bool-cases (has j m)) [
    | inl h ↦ (let (v, at) = has-true j m h in h ∙ sym (has_of_find j n v (sym e ∙ at)))
    | inr h ↦ h ∙ sym (has_of_none j n (sym e ∙ has-false j m h))
  ]

  has-remove_stale :
      (ids : List String) (desired : GoMap RelaySessionAssignment) (j : String) (r : Relay)
      → has j (remove_stale ids desired r).sessions
        ≡ (if contains j ids && not (has j desired) then false else has j r.sessions)
  has-remove_stale ids desired j r = elim (Bool-cases (contains j ids && not (has j desired))) [
    | inl h ↦
        has_of_none j (remove_stale ids desired r).sessions
          (find-remove_stale ids desired j r ∙ rw h refl)
        ∙ rw h refl
    | inr h ↦
        has_eq j (remove_stale ids desired r).sessions r.sessions
          (find-remove_stale ids desired j r ∙ rw h refl)
        ∙ rw h refl
  ]

  -- A reconciliation that reports no error leaves exactly the sessions that are assigned, by id.
  pub reconciled_ids :
      (config : RelayConfig) (now : String → ℕ) (r : Relay) (j : String)
      → (reconcile_sessions resolve config now r).1 ≡ []
      → has j (reconcile_sessions resolve config now r).0.sessions ≡ assigned j config.sessions
  unfolding reconcile_sessions has
  reconciled_ids config now r j ok =
      let desired = desired_set config.sessions [] in
      let current = keys r.sessions in
      has-add_missing desired current now j (remove_stale current desired r)
        (desired_set-Keyed config.sessions [] tt) ok
      ∙ ground (
        arith,
        has-remove_stale current desired j r,
        has-desired_set config.sessions [] j,
        contains-keys j r.sessions,
      )

  -- Whatever a reconciliation reports, a session that was there and is still assigned stays the object
  -- that it was, with the addresses that it had, also when its assignment has changed.
  pub reconciled_keeps :
      (config : RelayConfig) (now : String → ℕ) (r : Relay) (j : String)
      → has j r.sessions ≡ true
      → assigned j config.sessions ≡ true
      → find j (reconcile_sessions resolve config now r).0.sessions ≡ find j r.sessions
  unfolding reconcile_sessions has
  reconciled_keeps config now r j there wanted =
      let desired = desired_set config.sessions [] in
      let current = keys r.sessions in
      find-add_missing desired current now j (remove_stale current desired r)
        (desired_set-Keyed config.sessions [] tt) (contains-keys j r.sessions ∙ there)
      ∙ find-remove_stale current desired j r
      ∙ ground (arith, has-desired_set config.sessions [] j)
