-- ===== src/Reconcile/Drift.antt =====
-- internal/reconcile/drift.go: the report of a diff, one correction for each item.
use Prim.Native.String.{◌++◌ as concat}
use mathlib.Core.List.{◌++◌}
use plexd.Base.{
  ℕ, ◌+◌, String, List, [], ◌∷◌, Bool, true, false, map, arith, ◌≡◌, ◌↔◌, refl, ap, length,
  length-append, if◌then◌else◌,
}
use plexd.Api.Types.{Peer, Policy, DriftCorrection, DriftReport}
use plexd.Reconcile.Diff.{StateDiff, is_empty}

abbrev correction : String → String → DriftCorrection
correction t detail = record { type = t; detail = detail }

-- The five loops of `BuildDriftReport`.
unfoldable pub item_corrections : StateDiff → List DriftCorrection
item_corrections d =
    map (λ p. correction "peer_added" (concat "peer " (Peer.id p))) d.peers_to_add
    ++ (map (λ i. correction "peer_removed" (concat "peer " i)) d.peers_to_remove
        ++ (map (λ p. correction "peer_updated" (concat "peer " (Peer.id p))) d.peers_to_update
            ++ (map (λ p. correction "policy_added" (concat "policy " (Policy.id p)))
                  d.policies_to_add
                ++ map (λ i. correction "policy_removed" (concat "policy " i))
                    d.policies_to_remove)))

-- The four tests that follow them.
unfoldable pub flag_corrections : StateDiff → List DriftCorrection
flag_corrections d =
    (if d.signing_keys_changed
      then correction "signing_keys_updated" "signing keys rotated" ∷ []
      else [])
    ++ ((if d.metadata_changed then correction "metadata_updated" "metadata updated" ∷ [] else [])
        ++ ((if d.data_changed then correction "data_updated" "data updated" ∷ [] else [])
            ++ (if d.secret_refs_changed
                then correction "secret_refs_updated" "secret refs updated" ∷ []
                else [])))

unfoldable pub build_drift_report : StateDiff → ℕ → DriftReport
build_drift_report d now = record {
  timestamp = now;
  corrections = item_corrections d ++ flag_corrections d;
}

length-map {ℓ κ} : {A : Type ℓ} {B : Type κ} (f : A → B) (l : List A) → length (map f l) ≡ length l
length-map f [] = refl
length-map f (x ∷ l) = omega (arith, length-map f l)

abbrev pub flag : Bool → ℕ
flag true = 1
flag false = 0

length-item_corrections :
    (d : StateDiff)
    → length (item_corrections d)
      ≡ length d.peers_to_add
        + (length d.peers_to_remove
            + (length d.peers_to_update + (length d.policies_to_add + length d.policies_to_remove)))
unfolding item_corrections
length-item_corrections d = simp (length-append, length-map)

length-flag_corrections :
    (d : StateDiff)
    → length (flag_corrections d)
      ≡ flag d.signing_keys_changed
        + (flag d.metadata_changed + (flag d.data_changed + flag d.secret_refs_changed))
unfolding flag_corrections
length-flag_corrections d = simp length-append (ground arith)

-- The report has one correction for each item of the diff and one for each flag.
pub length-build_drift_report :
    (d : StateDiff) (now : ℕ)
    → length (build_drift_report d now).corrections
      ≡ length d.peers_to_add
        + (length d.peers_to_remove
            + (length d.peers_to_update + (length d.policies_to_add + length d.policies_to_remove)))
        + (flag d.signing_keys_changed
            + (flag d.metadata_changed + (flag d.data_changed + flag d.secret_refs_changed)))
unfolding build_drift_report
length-build_drift_report d now =
    rw (length-append, length-item_corrections, length-flag_corrections)

-- A report has no correction exactly when the diff is empty.
pub corrections-nil_iff :
    (d : StateDiff) (now : ℕ) → ((build_drift_report d now).corrections ≡ []) ↔ (is_empty d ≡ true)
unfolding is_empty
corrections-nil_iff d now = (
  λ h. ground (arith, length-build_drift_report d now, ap length h),
  λ h.
      nil_of_length (build_drift_report d now).corrections
        (ground (arith, length-build_drift_report d now)),
)
  where
    nil_of_length : (l : List DriftCorrection) → length l ≡ 0 → l ≡ []
    nil_of_length [] h = refl
    nil_of_length (x ∷ l) h = absurd (omega arith)
