-- ===== src/Bridge/Relay/Expiry.antt =====
-- internal/bridge/relay.go: when the timer of a session fires.
use plexd.Base.{
  ℕ, ◌+◌, String, ltb, leb, eqb_iff, Option, none, some, if◌then◌else◌, length, arith, ◌≡◌, inl,
  inr, ap, ◌∙◌, Bool-cases,
}
use plexd.Base.GoMap.{find, has, find-store_self}
use plexd.Api.Types.{RelaySessionAssignment}
use plexd.Bridge.Relay.{Relay, register, add_session, ttl_of}
use plexd.Bridge.Relay.Index.{add_session-Adds}

abbrev pub earlier : ℕ → ℕ → ℕ
earlier a b = if leb a b then a else b

-- The end that an assignment and the configuration set for a session that starts now.
abbrev pub end_of : ℕ → ℕ → ℕ → ℕ
end_of ttl expires_at now = if ltb now expires_at then earlier (now + ttl) expires_at else now + ttl

ttl_of-end_of :
    (ttl expires_at now : ℕ) → now + ttl_of ttl expires_at now ≡ end_of ttl expires_at now
unfolding ttl_of
ttl_of-end_of ttl expires_at now = ground (arith, eqb_iff expires_at 0)

-- The timer of a session that is added fires at the end of the time to live of the relay, or at the
-- end of the assignment if that lies ahead and is earlier. An assignment that has no end, or whose end
-- is past, keeps its session for the whole time to live.
pub added_deadline :
    (resolve : String → Option String) (a : RelaySessionAssignment) (now : ℕ) (r : Relay)
    → (add_session resolve a now r).1 ≡ none
    → find a.session_id (add_session resolve a now r).0.timers
      ≡ some (end_of r.session_ttl a.expires_at now)
unfolding register
added_deadline resolve a now r ok = elim (add_session-Adds resolve a now r) [
  | inl (_, err) ↦ absurd (err ok)
  | inr (x, y, _, _, _, _, e) ↦ rw e (timer x y (rw e at ok))
]
  where
    timer :
        (x y : String)
        → (register a x y now r).1 ≡ none
        → find a.session_id (register a x y now r).0.timers
          ≡ some (end_of r.session_ttl a.expires_at now)
    timer x y fine = elim (Bool-cases (has a.session_id r.sessions)) [
      | inl e ↦ absurd (ground arith)
      | inr new ↦ elim (Bool-cases (leb r.max_sessions (length r.sessions))) [
        | inl e ↦ absurd (ground arith)
        | inr room ↦
            rw (new, room, register)
              (find-store_self a.session_id (now + ttl_of r.session_ttl a.expires_at now) r.timers
                ∙ ap some (ttl_of-end_of r.session_ttl a.expires_at now))
      ]
    ]
