-- ===== src/Reconcile/Diff/Maps.antt =====
-- internal/reconcile/diff.go: the tests that compare two maps, read as equality at every key.
use plexd.Base.{
  String, [], ◌∷◌, true, false, eq_iff, eq_refl, eqb_iff, none, some, arith, ◌≡◌, refl, ap, sym,
  Bool-cases, Option-cases, String-cases, inl, inr, length, ◌⊎◌, ◌↔◌,
}
use plexd.Base.GoMap.{
  GoMap, Distinct, find, has, delete, find-delete, delete-Distinct, has_of_find, has_of_none,
  length-delete, has-true, has-false,
}
use plexd.Base.Int.{ℤ, eqb_ℤ_iff}
use plexd.Reconcile.Diff.{maps_equal, entries_in, versions_differ, version_missing, key_missing}

-- maps.Equal compares as functions: two maps of one size, of which the second has the entries of the
-- first, give the same value at every key.
entries_in-delete :
    (k : String) (m n : GoMap String)
    → has k m ≡ false
    → entries_in m n ≡ true
    → entries_in m (delete k n) ≡ true
unfolding entries_in has
entries_in-delete k [] n h e = refl
entries_in-delete k ((j, v) ∷ m) n h e =
    ground (arith, entries_in-delete k m n, find-delete k j n, eq_iff k j, eq_iff j k)

entries_in-find :
    (m n : GoMap String) (j : String)
    → Distinct m
    → Distinct n
    → length m ≡ length n
    → entries_in m n ≡ true
    → find j m ≡ find j n
unfolding entries_in find
entries_in-find [] [] j d d' l e = refl
entries_in-find [] (b ∷ n) j d d' l e = absurd (ground arith)
entries_in-find ((k, v) ∷ m) n j d d' l e = elim (Option-cases (find k n)) [
  | inl missing ↦ absurd (ground arith)
  | inr (w, found) ↦ ground (
    arith,
    eq_iff v w,
    eq_iff k j,
    find-delete k j n,
    ap (λ (s : String). find s n),
    length-delete k n d' (has_of_find k n w found),
    entries_in-delete k m n d.0,
    entries_in-find m (delete k n) j d.1 (delete-Distinct k n d'),
  )
]

abbrev pub SameMap {ℓ} : {V : Type ℓ} → GoMap V → GoMap V → Type ℓ
SameMap m n = (j : String) → find j m ≡ find j n

SameMap-tail :
    (k v : String) (m n : GoMap String)
    → has k m ≡ false
    → SameMap ((k, v) ∷ m) n
    → SameMap m (delete k n)
unfolding find
SameMap-tail k v m n h s j =
    ground
      (arith, s j, find-delete k j n, eq_iff k j, has-false k m h, ap (λ (s : String). find s m))

SameMap-maps_equal :
    (m n : GoMap String)
    → Distinct m
    → Distinct n
    → SameMap m n
    → (length m ≡ length n) × (entries_in m n ≡ true)
unfolding entries_in find
SameMap-maps_equal [] [] d d' s = (refl, refl)
SameMap-maps_equal [] ((k, v) ∷ n) d d' s = absurd (ground (arith, s k, eq_refl k))
SameMap-maps_equal ((k, v) ∷ m) n d d' s =
    let found : find k n ≡ some v = ground (arith, s k, eq_refl k) in
    let ih =
      SameMap-maps_equal m (delete k n) d.1 (delete-Distinct k n d') (SameMap-tail k v m n d.0 s) in
    (
      ground (arith, ih.0, length-delete k n d' (has_of_find k n v found)),
      ground (arith, found, eq_refl v, entries_in_weaken k m n ih.1),
    )
  where
    entries_in_weaken :
        (k : String) (m n : GoMap String) → entries_in m (delete k n) ≡ true → entries_in m n ≡ true
    entries_in_weaken k [] n e = refl
    entries_in_weaken k ((j, v) ∷ m) n e =
        ground (arith, entries_in_weaken k m n, find-delete k j n)

-- The metadata comparison is equality at every key.
pub maps_equal_iff :
    (m n : GoMap String) → Distinct m → Distinct n → (maps_equal m n ≡ true) ↔ SameMap m n
unfolding maps_equal
maps_equal_iff m n d d' = (
  λ h j. entries_in-find m n j d d' (ground (arith, eqb_iff (length m) (length n))) (ground arith),
  λ s.
      (let (l, e) = SameMap-maps_equal m n d d' s in ground (arith, eqb_iff (length m) (length n))),
)

version_missing-find :
    (m n : GoMap ℤ) (j : String) (v : ℤ)
    → version_missing m n ≡ false
    → find j m ≡ some v
    → find j n ≡ some v
unfolding version_missing find
version_missing-find [] n j v h f = absurd (ground arith)
version_missing-find ((k, w) ∷ m) n j v h f = elim (Option-cases (find k n)) [
  | inl missing ↦ absurd (ground arith)
  | inr (x, found) ↦ ground (
    arith,
    eq_iff k j,
    version_missing-find m n j v,
    eqb_ℤ_iff w x,
    ap (λ (s : String). find s n),
  )
]

key_missing-has :
    (m n : GoMap ℤ) (j : String) → key_missing m n ≡ false → has j m ≡ true → has j n ≡ true
unfolding key_missing has
key_missing-has [] n j h f = absurd (ground arith)
key_missing-has ((k, w) ∷ m) n j h f =
    ground (arith, eq_iff k j, key_missing-has m n j, ap (λ (s : String). has s n))

version_missing-false :
    (m n : GoMap ℤ)
    → Distinct m
    → ((j : String) (v : ℤ) → find j m ≡ some v → find j n ≡ some v)
    → version_missing m n ≡ false
unfolding version_missing find
version_missing-false [] n d s = refl
version_missing-false ((k, v) ∷ m) n d s =
    let found : find k n ≡ some v = s k v (rw eq_refl) in
    rw (found, (eqb_ℤ_iff v v).1 refl) (version_missing-false m n d.1 (λ j w f. s j w (skip j w f)))
  where
    skip : (j : String) (w : ℤ) → find j m ≡ some w → find j ((k, v) ∷ m) ≡ some w
    skip j w f = elim (String-cases k j) [
      | inl (same, e) ↦ absurd (ground (arith, has_of_find j m w f, ap (λ (s : String). has s m) e))
      | inr (other, o) ↦ rw other f
    ]

key_missing-false :
    (m n : GoMap ℤ) → ((j : String) → has j m ≡ true → has j n ≡ true) → key_missing m n ≡ false
unfolding key_missing has
key_missing-false [] n s = refl
key_missing-false ((k, v) ∷ m) n s =
    rw (s k (rw eq_refl)) (key_missing-false m n (λ j h. s j (ground arith)))

-- Versions do not differ exactly when the two maps give the same version at every key.
pub versions_differ_iff : (m n : GoMap ℤ) → Distinct m → (versions_differ m n ≡ false) ↔ SameMap m n
unfolding versions_differ
versions_differ_iff m n d = (
  λ h j. same j (ground arith) (ground arith) (Option-cases (find j m)),
  λ s. rw (
    version_missing-false m n d (λ j v f. rw (← s j) f),
    key_missing-false n m (λ j h. (let (v, f) = has-true j n h in has_of_find j m v (rw (s j) f))),
  ),
)
  where
    same :
        (j : String)
        → version_missing m n ≡ false
        → key_missing n m ≡ false
        → (find j m ≡ none) ⊎ ((v : ℤ) × (find j m ≡ some v))
        → find j m ≡ find j n
    same j a b (inr (v, f)) = rw f (sym (version_missing-find m n j v a f))
    same j a b (inl f) = elim (Bool-cases (has j n)) [
      | inl h ↦ absurd (ground (arith, key_missing-has n m j b h, has_of_none j m f))
      | inr h ↦ rw f (sym (has-false j n h))
    ]
