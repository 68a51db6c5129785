-- ===== src/NodeApi/Versions.antt =====
-- internal/nodeapi/cache.go: the versions of reports under writers that compete.
use plexd.Base.{
  ℕ, ◌+◌, ◌<◌, String, List, [], ◌∷◌, false, Option, none, some, if◌then◌else◌, All, arith, ◌≡◌,
  ◌≢◌, refl, ap, sym, ◌∙◌, inl, inr, Bool-cases, Option-cases, String-cases, ◌⊎◌, eq_iff,
}
use plexd.Base.GoMap.{
  GoMap, find, has, store, find-store, find-store_self, find-store_other, find-delete_other,
}
use plexd.Base.Int.{ℤ, pos, eqb_ℤ, eqb_ℤ_iff}
use plexd.Api.Envelope.{Bytes}
use plexd.NodeApi.Cache.{
  ReportEntry, Files, StateCache, CacheError, version_conflict, write_report, put_report,
  delete_report,
}

-- The calls of the clients on reports; each put has its reading of the clock.
pub data ReportCall : Type 0 where
  put : String → String → Bytes → Option ℤ → ℕ → ReportCall
  remove : String → ReportCall

-- The call does not delete the report.
abbrev pub Spares : String → ReportCall → Type 0
Spares k (put key c p m now) = Unit
Spares k (remove key) = key ≢ k

-- The report has a version above the given one.
abbrev pub IsAbove : ℕ → String → StateCache → Type 0
IsAbove v k sc = (e : ReportEntry) × (find k sc.reports ≡ some e) × (v < e.version)

module _ (files : Files) where
  abbrev pub report_call : ReportCall → StateCache → StateCache
  report_call (put key c p m now) sc = (put_report files key c p m now sc).0
  report_call (remove key) sc = (delete_report files key sc).0

  abbrev pub report_calls : List ReportCall → StateCache → StateCache
  report_calls [] sc = sc
  report_calls (c ∷ cs) sc = report_calls cs (report_call c sc)

  -- What a put does to the reports: nothing, or it stores an entry with the next version.
  abbrev PutsNext : String → StateCache → StateCache × Option CacheError → Type 0
  PutsNext key sc out =
      ((out.0 ≡ sc) × (out.1 ≢ none))
      ⊎ ((e : ReportEntry) × (out.0.reports ≡ store key e sc.reports)
          × (((old : ReportEntry) × (find key sc.reports ≡ some old)
                × (e.version ≡ old.version + 1))
              ⊎ ((find key sc.reports ≡ none) × (e.version ≡ 1))))

  put_report-PutsNext :
      (key c : String) (p : Bytes) (m : Option ℤ) (now : ℕ) (sc : StateCache)
      → PutsNext key sc (put_report files key c p m now sc)
  unfolding put_report write_report
  put_report-PutsNext key c p m now sc = go (find key sc.reports) m refl
    where
      entry : ℕ → ReportEntry
      entry v = record { key = key; content_type = c; payload = p; version = v; updated_at = now }

      written : ℕ → StateCache × Option CacheError
      written v = (write_report files (entry v) sc, none)

      go :
          (o : Option ReportEntry) (i : Option ℤ)
          → find key sc.reports ≡ o
          → PutsNext key sc (elim o [
            | some e ↦ elim i [
              | some n ↦
                  if eqb_ℤ n (pos e.version)
                  then written (e.version + 1)
                  else (sc, some version_conflict)
              | none ↦ written (e.version + 1)
            ]
            | none ↦ elim i [
              | some n ↦ if eqb_ℤ n (pos 0) then written 1 else (sc, some version_conflict)
              | none ↦ written 1
            ]
          ])
      go none none h = inr (entry 1, refl, inr (h, refl))
      go none (some n) h = elim (Bool-cases (eqb_ℤ n (pos 0))) [
        | inl b ↦ rw b (inr (entry 1, refl, inr (h, refl)))
        | inr b ↦ rw b (inl (refl, λ x. ground arith))
      ]
      go (some e) none h = inr (entry (e.version + 1), refl, inl (e, h, refl))
      go (some e) (some n) h = elim (Bool-cases (eqb_ℤ n (pos e.version))) [
        | inl b ↦ rw b (inr (entry (e.version + 1), refl, inl (e, h, refl)))
        | inr b ↦ rw b (inl (refl, λ x. ground arith))
      ]

  put-IsAbove :
      (v : ℕ) (k key c : String) (p : Bytes) (m : Option ℤ) (now : ℕ) (sc : StateCache)
      → IsAbove v k sc
      → IsAbove v k (put_report files key c p m now sc).0
  put-IsAbove v k key c p m now sc (e, at, above) = elim (put_report-PutsNext key c p m now sc) [
    | inl (same, _) ↦ rw same (e, at, above)
    | inr (x, stored, next) ↦ elim (String-cases key k) [
      | inr (other, _) ↦ (
        e,
        ap (λ (r : GoMap ReportEntry). find k r) stored
            ∙ find-store_other key k x sc.reports other
            ∙ at,
        above,
      )
      | inl (same, _) ↦ (
        x,
        ap (λ (r : GoMap ReportEntry). find k r) stored
            ∙ find-store key k x sc.reports
            ∙ rw same refl,
        elim next [
          | inl (old, was, is_next) ↦
              (let o =
                  inj (
                    sym was
                    ∙ ap (λ (s : String). find s sc.reports) ((eq_iff key k).0 same)
                    ∙ at) in
                let n = ap (λ (r : ReportEntry). r.version) o in omega (arith, n, is_next, above))
          | inr (absent, _) ↦ absurd (
              let b =
                sym absent ∙ ap (λ (s : String). find s sc.reports) ((eq_iff key k).0 same) ∙ at in
              ground arith)
        ],
      )
    ]
  ]
    where
      inj : {a b : ReportEntry} → some a ≡ some b → a ≡ b
      inj e = cc

  remove-IsAbove :
      (v : ℕ) (k key : String) (sc : StateCache)
      → key ≢ k
      → IsAbove v k sc
      → IsAbove v k (delete_report files key sc).0
  unfolding delete_report
  remove-IsAbove v k key sc other (e, at, above) = elim (Bool-cases (has key sc.reports)) [
    | inr none_ ↦ rw (none_, delete_report) (e, at, above)
    | inl there ↦
        rw (there, delete_report)
          (e, find-delete_other key k sc.reports (ground (arith, eq_iff key k)) ∙ at, above)
  ]

  calls-IsAbove :
      (v : ℕ) (k : String) (cs : List ReportCall) (sc : StateCache)
      → All (Spares k) cs
      → IsAbove v k sc
      → IsAbove v k (report_calls cs sc)
  calls-IsAbove v k [] sc spares a = a
  calls-IsAbove v k (put key c p m now ∷ cs) sc spares a =
      calls-IsAbove v k cs (put_report files key c p m now sc).0 spares.1
        (put-IsAbove v k key c p m now sc a)
  calls-IsAbove v k (remove key ∷ cs) sc spares a =
      calls-IsAbove v k cs (delete_report files key sc).0 spares.1
        (remove-IsAbove v k key sc spares.0 a)

  accepted-IsAbove :
      (v : ℕ) (k c : String) (p : Bytes) (now : ℕ) (sc : StateCache)
      → (put_report files k c p (some (pos v)) now sc).1 ≡ none
      → IsAbove v k (put_report files k c p (some (pos v)) now sc).0
  unfolding put_report write_report
  accepted-IsAbove v k c p now sc ok = elim (Option-cases (find k sc.reports)) [
    | inl e ↦ elim (Bool-cases (eqb_ℤ (pos v) (pos 0))) [
      | inl b ↦
          rw (e, b, put_report)
            (
              record { key = k; content_type = c; payload = p; version = 1; updated_at = now },
              find-store_self k _ sc.reports,
              (ground (arith, eqb_ℤ_iff (pos v) (pos 0))),
            )
      | inr b ↦ absurd (let h = rw (e, b, put_report) at ok in ground arith)
    ]
    | inr (old, e) ↦ elim (Bool-cases (eqb_ℤ (pos v) (pos old.version))) [
      | inl b ↦
          rw (e, b, put_report)
            (
              record {
                key = k;
                content_type = c;
                payload = p;
                version = old.version + 1;
                updated_at = now;
              },
              find-store_self k _ sc.reports,
              (ground (arith, eqb_ℤ_iff (pos v) (pos old.version))),
            )
      | inr b ↦ absurd (let h = rw (e, b, put_report) at ok in ground arith)
    ]
  ]

  above-conflict :
      (v : ℕ) (k c : String) (p : Bytes) (now : ℕ) (sc : StateCache)
      → IsAbove v k sc
      → put_report files k c p (some (pos v)) now sc ≡ (sc, some version_conflict)
  unfolding put_report
  above-conflict v k c p now sc (e, at, above) = rw (at, differ, put_report) refl
    where
      differ : eqb_ℤ (pos v) (pos e.version) ≡ false
      differ = ground (arith, eqb_ℤ_iff (pos v) (pos e.version))

  -- Of two writers that have read the same version of a report only the first succeeds: after a put
  -- with that version is accepted, and after any calls that do not delete the report, a second put with
  -- the version is refused with a conflict and changes nothing.
  pub second_put_conflicts :
      (v : ℕ) (k c₁ c₂ : String) (p₁ p₂ : Bytes) (now₁ now₂ : ℕ) (between : List ReportCall)
      (sc : StateCache)
      → All (Spares k) between
      → (put_report files k c₁ p₁ (some (pos v)) now₁ sc).1 ≡ none
      → put_report files k c₂ p₂
          (some (pos v))
          now₂
          (report_calls between (put_report files k c₁ p₁ (some (pos v)) now₁ sc).0)
        ≡ (
          report_calls between (put_report files k c₁ p₁ (some (pos v)) now₁ sc).0,
          some version_conflict,
        )
  second_put_conflicts v k c₁ c₂ p₁ p₂ now₁ now₂ between sc spares ok =
      above-conflict v k c₂ p₂ now₂
        (report_calls between (put_report files k c₁ p₁ (some (pos v)) now₁ sc).0)
        (calls-IsAbove v k between (put_report files k c₁ p₁ (some (pos v)) now₁ sc).0 spares
          (accepted-IsAbove v k c₁ p₁ now₁ sc ok))
