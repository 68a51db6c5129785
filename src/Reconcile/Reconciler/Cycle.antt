-- ===== src/Reconcile/Reconciler/Cycle.antt =====
-- internal/reconcile/reconciler.go: what one cycle leaves for the next.
use plexd.Base.{
  List, [], ◌∷◌, Bool, true, false, if◌then◌else◌, Option, some, All, ◌≡◌, ◌≢◌, ◌⊎◌, refl,
  Bool-cases, inl, inr,
}
use plexd.Api.Types.{
  StateResponse, BridgeConfig, RelayConfig, UserAccessConfig, IngressConfig, SiteToSiteConfig,
}
use plexd.Reconcile.Diff.{StateDiff, is_empty, compute_diff, diff_states}
use plexd.Reconcile.Diff.Agree.{Agree-self, is_empty_iff}
use plexd.Reconcile.Diff.Stages.{IsWellFormed}
use plexd.Reconcile.Snapshot.{StateSnapshot, get, update}
use plexd.Reconcile.Drift.{build_drift_report}
use plexd.Reconcile.Reconciler.{
  fetched, HandlerResult, returned_nil, returned_error, panicked, Client, Handler, Reconciler,
  safe_invoke, invoke_handlers, correct, after_fetch,
}

-- The diff of a cycle that fetches `desired`.
abbrev pub cycle_diff : {W : Type 0} → Reconciler W → StateResponse → StateDiff
cycle_diff r desired = compute_diff (some desired) (some (get r.snapshot))

settled :
    (s : StateSnapshot) (d : StateResponse)
    → IsWellFormed d
    → is_empty (compute_diff (some d) (some (get (update s d)))) ≡ true
unfolding compute_diff get update diff_states
settled s d wf = (is_empty_iff d d wf wf).1 (Agree-self d)

module _ {W : Type 0} where
  -- Some of the handlers, each called in the world that those before it leave, fails or panics.
  abbrev pub SomeFails : List (Handler W) → W → StateResponse → StateDiff → Type 0
  SomeFails [] w desired diff = ⊥
  SomeFails (h ∷ hs) w desired diff =
      ((h w desired diff).1 ≢ returned_nil) ⊎ SomeFails hs (h w desired diff).0 desired diff

  abbrev pub AllSucceed : List (Handler W) → W → StateResponse → StateDiff → Type 0
  AllSucceed [] w desired diff = Unit
  AllSucceed (h ∷ hs) w desired diff =
      ((h w desired diff).1 ≡ returned_nil) × AllSucceed hs (h w desired diff).0 desired diff

  -- The world that the handlers leave, called one after the other.
  abbrev pub call_all : List (Handler W) → W → StateResponse → StateDiff → W
  call_all [] w desired diff = w
  call_all (h ∷ hs) w desired diff = call_all hs (h w desired diff).0 desired diff

  stays_failed :
      (hs : List (Handler W)) (w : W) (desired : StateResponse) (diff : StateDiff)
      → (invoke_handlers hs w desired diff true).1 ≡ true
  unfolding invoke_handlers safe_invoke
  stays_failed [] w desired diff = refl
  stays_failed (h ∷ hs) w desired diff =
      go (h w desired diff).1 (stays_failed hs (h w desired diff).0 desired diff)
    where
      go :
          (res : HandlerResult)
          → (invoke_handlers hs (h w desired diff).0 desired diff true).1 ≡ true
          → let err : Bool = (elim res [
            | returned_nil ↦ false
            | returned_error ↦ true
            | panicked ↦ true
          ]) in
            (invoke_handlers hs (h w desired diff).0 desired diff (if err then true else true)).1
            ≡ true
      go returned_nil ih = ih
      go returned_error ih = ih
      go panicked ih = ih

  invoke_handlers-fails :
      (hs : List (Handler W)) (w : W) (desired : StateResponse) (diff : StateDiff) (b : Bool)
      → SomeFails hs w desired diff
      → (invoke_handlers hs w desired diff b).1 ≡ true
  unfolding invoke_handlers safe_invoke
  invoke_handlers-fails [] w desired diff b f = absurd f
  invoke_handlers-fails (h ∷ hs) w desired diff b f =
      go (h w desired diff).1 f
        (λ c g. invoke_handlers-fails hs (h w desired diff).0 desired diff c g)
    where
      w' : W
      w' = (h w desired diff).0

      go :
          (res : HandlerResult)
          → (res ≢ returned_nil) ⊎ SomeFails hs w' desired diff
          → ((c : Bool)
              → SomeFails hs w' desired diff
              → (invoke_handlers hs w' desired diff c).1 ≡ true)
          → let err : Bool = (elim res [
            | returned_nil ↦ false
            | returned_error ↦ true
            | panicked ↦ true
          ]) in
            (invoke_handlers hs w' desired diff (if err then true else b)).1 ≡ true
      go returned_nil (inl n) ih = absurd (n refl)
      go returned_nil (inr g) ih = ih b g
      go returned_error g ih = stays_failed hs w' desired diff
      go panicked g ih = stays_failed hs w' desired diff

  invoke_handlers-succeeds :
      (hs : List (Handler W)) (w : W) (desired : StateResponse) (diff : StateDiff)
      → AllSucceed hs w desired diff
      → invoke_handlers hs w desired diff false ≡ (call_all hs w desired diff, false)
  unfolding invoke_handlers safe_invoke
  invoke_handlers-succeeds [] w desired diff s = refl
  invoke_handlers-succeeds (h ∷ hs) w desired diff s =
      rw (s.0) (invoke_handlers-succeeds hs (h w desired diff).0 desired diff s.1)

module _ {W : Type 0} (client : Client W) where
  correct_calls :
      (r : Reconciler W) (w : W) (desired : StateResponse) (diff : StateDiff)
      → invoke_handlers r.handlers w desired diff false
        ≡ (call_all r.handlers w desired diff, false)
      → let called = call_all r.handlers w desired diff in
        correct client r w desired diff ≡ (
          record r { snapshot = update r.snapshot desired },
          (client.report_drift called (build_drift_report diff (client.now called))).0,
        )
  unfolding correct
  correct_calls r w desired diff e = rw e refl

  idle :
      (r : Reconciler W) (w : W) (desired : StateResponse)
      → is_empty (cycle_diff r desired) ≡ true
      → after_fetch client r w (fetched (some desired)) ≡ (r, w)
  unfolding after_fetch
  idle r w desired e = rw e

  busy :
      (r : Reconciler W) (w : W) (desired : StateResponse)
      → is_empty (cycle_diff r desired) ≡ false
      → after_fetch client r w (fetched (some desired))
        ≡ correct client r w desired (cycle_diff r desired)
  unfolding after_fetch
  busy r w desired e = rw e

  correct_ok :
      (r : Reconciler W) (w : W) (desired : StateResponse) (diff : StateDiff)
      → (invoke_handlers r.handlers w desired diff false).1 ≡ false
      → (correct client r w desired diff).0 ≡ record r { snapshot = update r.snapshot desired }
  unfolding correct
  correct_ok r w desired diff e = rw e

  correct_failed :
      (r : Reconciler W) (w : W) (desired : StateResponse) (diff : StateDiff)
      → (invoke_handlers r.handlers w desired diff false).1 ≡ true
      → (correct client r w desired diff).0 ≡ r
  unfolding correct
  correct_failed r w desired diff e = rw e

  -- After a cycle whose handlers all succeed, a cycle that fetches the same well-formed state finds
  -- no drift: it calls no handler, reports nothing and leaves the reconciler as it is.
  pub cycle_converges :
      (r : Reconciler W) (w w₁ : W) (desired : StateResponse)
      → IsWellFormed desired
      → (invoke_handlers r.handlers w desired (cycle_diff r desired) false).1 ≡ false
      → let r' = (after_fetch client r w (fetched (some desired))).0 in
        after_fetch client r' w₁ (fetched (some desired)) ≡ (r', w₁)
  cycle_converges r w w₁ desired wf ok = elim (Bool-cases (is_empty (cycle_diff r desired))) [
    | inl e ↦ rw (idle r w desired e) (idle r w₁ desired e)
    | inr e ↦
        rw (busy r w desired e, correct_ok r w desired (cycle_diff r desired) ok)
          (idle (record r { snapshot = update r.snapshot desired }) w₁ desired
            (settled r.snapshot desired wf))
  ]

  -- A cycle in which a handler fails keeps the reconciler, whatever the other handlers do.
  failed_cycle :
      (r : Reconciler W) (w : W) (desired : StateResponse)
      → is_empty (cycle_diff r desired) ≡ false
      → SomeFails r.handlers w desired (cycle_diff r desired)
      → (after_fetch client r w (fetched (some desired))).0 ≡ r
  failed_cycle r w desired e fails = rw (busy r w desired e) (
      correct_failed r w desired (cycle_diff r desired)
        (invoke_handlers-fails r.handlers w desired (cycle_diff r desired) false fails))

  -- Cycles that all fetch the same state, in the worlds in which their handlers start.
  abbrev pub cycles : Reconciler W → List W → StateResponse → Reconciler W
  cycles r [] desired = r
  cycles r (w ∷ ws) desired = cycles (after_fetch client r w (fetched (some desired))).0 ws desired

  failed_cycles :
      (r : Reconciler W) (ws : List W) (desired : StateResponse)
      → is_empty (cycle_diff r desired) ≡ false
      → All (λ w. SomeFails r.handlers w desired (cycle_diff r desired)) ws
      → cycles r ws desired ≡ r
  failed_cycles r [] desired e fail = refl
  failed_cycles r (w ∷ ws) desired e fail =
      rw (failed_cycle r w desired e fail.0) (failed_cycles r ws desired e fail.1)

  -- After any number of cycles that fetch a state with drift and in each of which some handler, the
  -- last or another, returns an error or panics, the reconciler is as before; the next cycle with
  -- that state calls every handler, with the same diff, and if each of them returns nil then the
  -- state becomes the snapshot.
  pub failed_cycle_retries :
      (r : Reconciler W) (ws : List W) (w : W) (desired : StateResponse)
      → is_empty (cycle_diff r desired) ≡ false
      → All (λ w. SomeFails r.handlers w desired (cycle_diff r desired)) ws
      → AllSucceed r.handlers w desired (cycle_diff r desired)
      → let diff = cycle_diff r desired in
        let r' = cycles r ws desired in
        let called = call_all r.handlers w desired diff in
        (r' ≡ r)
        × (after_fetch client r' w (fetched (some desired)) ≡ (
          record r { snapshot = update r.snapshot desired },
          (client.report_drift called (build_drift_report diff (client.now called))).0,
        ))
  failed_cycle_retries r ws w desired e fail succeed =
      let diff = cycle_diff r desired in
      let kept = failed_cycles r ws desired e fail in
      (
        kept,
        rw (kept, busy r w desired e)
            (correct_calls r w desired diff
              (invoke_handlers-succeeds r.handlers w desired diff succeed)),
      )

  -- A cycle does not act on a change of the configurations of the bridge, the relay, the user access,
  -- the ingress or the site-to-site tunnels: while the rest of the fetched state agrees with the
  -- snapshot, no handler is called, whatever these configurations are.
  pub bridge_configs_unseen :
      (r : Reconciler W) (w : W) (desired : StateResponse) (bridge : Option BridgeConfig)
      (relay : Option RelayConfig) (access : Option UserAccessConfig)
      (ingress : Option IngressConfig) (sites : Option SiteToSiteConfig)
      → is_empty (cycle_diff r desired) ≡ true
      → after_fetch client r w (
          fetched (
            some (record desired {
              bridge_config = bridge;
              relay_config = relay;
              user_access_config = access;
              ingress_config = ingress;
              site_to_site_config = sites;
            })))
        ≡ (r, w)
  unfolding compute_diff diff_states
  bridge_configs_unseen r w desired bridge relay access ingress sites e =
      idle r w
        (record desired {
          bridge_config = bridge;
          relay_config = relay;
          user_access_config = access;
          ingress_config = ingress;
          site_to_site_config = sites;
        })
        e
