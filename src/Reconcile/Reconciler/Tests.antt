-- ===== src/Reconcile/Reconciler/Tests.antt =====
-- internal/reconcile/reconciler.go: cycles over a world that counts the calls of its handlers.
use plexd.Base.{ℕ, suc, [], ◌∷◌, true, false, some, ◌≡◌, refl, eqb, if◌then◌else◌, inl, arith}
use plexd.Base.GoMap.{find, has, store}
use plexd.Api.Types.{StateResponse}
use plexd.Reconcile.Diff.{
  no_state, is_empty, compute_diff, diff_states, diff_peers, diff_policies, diff_signing_keys,
  diff_metadata, diff_data, diff_secret_refs, peer_changed, sorted_strings_equal, strings_equal,
  sort_strings, insert_string, peers_by_id, peer_ids, policy_ids, id_set, note_desired_peer,
  note_desired_peers, note_removed_peers, note_desired_policies, note_removed_policies, maps_equal,
  entries_in, data_versions, secret_versions, version_missing, key_missing, versions_differ,
}
use plexd.Reconcile.Snapshot.{new_state_snapshot, get, update}
use plexd.Reconcile.Reconciler.{
  returned_nil, panicked, fetched, Client, Handler, Reconciler, safe_invoke, invoke_handlers,
  correct, after_fetch,
}
use plexd.Reconcile.Reconciler.Cycle.{
  cycle_diff, cycles, call_all, cycle_converges, failed_cycle_retries,
}
use plexd.Reconcile.Drift.{build_drift_report}

program : Unit {0}
unfolding is_empty compute_diff diff_states diff_peers diff_policies diff_signing_keys diff_metadata
    diff_data diff_secret_refs peer_changed sorted_strings_equal strings_equal sort_strings
    insert_string peers_by_id peer_ids policy_ids id_set note_desired_peer note_desired_peers
    note_removed_peers note_desired_policies note_removed_policies maps_equal entries_in
    data_versions secret_versions version_missing key_missing versions_differ new_state_snapshot get
    update safe_invoke invoke_handlers correct after_fetch find has store
program = tt

abbrev node : StateResponse
node = record no_state {
  peers =
      (record {
        id = "a";
        public_key = "k";
        mesh_ip = "";
        endpoint = "";
        allowed_ips = [];
        psk = "";
      })
      ∷ [];
}

abbrev client : Client ℕ
client = record {
  fetch_state = λ w. (w, fetched (some node));
  report_drift = λ w _. (w, true);
  now = λ w. w;
}

abbrev counting : Handler ℕ
counting w _ _ = (suc w, returned_nil)

abbrev crashing : Handler ℕ
crashing w _ _ = (suc w, panicked)

abbrev good : Reconciler ℕ
good = record { snapshot = new_state_snapshot; handlers = counting ∷ []; triggered = false }

abbrev bad : Reconciler ℕ
bad = record {
  snapshot = new_state_snapshot;
  handlers = crashing ∷ counting ∷ [];
  triggered = false;
}

-- A handler that panics does not keep the next one from being called.
both_called : (after_fetch client bad 0 (fetched (some node))).1 ≡ 2
unfolding program
both_called = refl

cycle_converges_example :
    let r' = (after_fetch client good 0 (fetched (some node))).0 in
    after_fetch client r' 1 (fetched (some node)) ≡ (r', 1)
cycle_converges_example =
    cycle_converges client good 0 1 node
      (unfold program in record { peers = (refl, tt); metadata = tt }) (unfold program in refl)

-- A handler that panics in the first world only.
abbrev recovering : Handler ℕ
recovering w _ _ = (suc w, if eqb w 0 then panicked else returned_nil)

abbrev flaky : Reconciler ℕ
flaky = record bad { handlers = recovering ∷ counting ∷ [] }

failed_cycle_retries_example :
    let diff = cycle_diff flaky node in
    let r' = cycles client flaky (0 ∷ 0 ∷ []) node in
    let called = call_all flaky.handlers 1 node diff in
    (r' ≡ flaky)
    × (after_fetch client r' 1 (fetched (some node)) ≡ (
      record flaky { snapshot = update flaky.snapshot node },
      (client.report_drift called (build_drift_report diff (client.now called))).0,
    ))
failed_cycle_retries_example =
    failed_cycle_retries client flaky (0 ∷ 0 ∷ []) 1 node (unfold program in refl)
      (inl (ground arith), (inl (ground arith), tt)) (refl, (refl, tt))
