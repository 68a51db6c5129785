-- ===== src/Bridge/Resync/Refines.antt =====
-- internal/bridge/ingress_handler.go and site_to_site_handler.go: what a reconciliation leaves,
-- for every manager with the laws of a bounded map.
use plexd.Base.{
  String, List, [], ◌∷◌, true, false, Option, none, some, if◌then◌else◌, contains, ◌==◌, arith, ◌≡◌,
  ◌↔◌, ◌⊎◌, inl, inr, refl, sym, ap, ◌∙◌, Bool-cases, String-cases, Option-cases, eq_iff, IsSome,
}
use plexd.Base.GoMap.{GoMap, find, store, find-store}
use plexd.Bridge.Resync.{Managed, without, desired_items, settle, settle_all, add_absent, resync}

-- What a manager promises in the states that `Inv` describes.
pub record IsLawful {S Item : Type 0} (m : Managed S Item) (Inv : S → Type 0) : Type 0 where
  pub equal_iff : (x y : Item) → (m.equal x y ≡ true) ↔ (x ≡ y)
  pub ids_get : (j : String) (s : S) → Inv s → contains j (m.ids s) ≡ true → IsSome (m.get j s)
  pub get_ids : (j : String) (s : S) → Inv s → contains j (m.ids s) ≡ false → m.get j s ≡ none
  pub remove_keeps : (k : String) (s : S) → Inv s → Inv (m.remove k s)
  pub get_remove :
      (k j : String) (s : S) → Inv s → m.get j (m.remove k s) ≡ (if k == j then none else m.get j s)
  pub add_keeps : (x : Item) (s : S) → Inv s → Inv (m.add x s).0
  pub get_add :
      (x : Item) (j : String) (s : S)
      → Inv s
      → (m.add x s).1 ≡ false
      → m.get j (m.add x s).0 ≡ (if m.id_of x == j then some x else m.get j s)

contains-without :
    (id j : String) (ks : List String)
    → contains j (without id ks) ≡ (if id == j then false else contains j ks)
unfolding without
contains-without id j [] = ground arith
contains-without id j (k ∷ ks) =
    ground (arith, eq_iff id j, eq_iff k id, eq_iff k j, contains-without id j ks)

-- The last of the items with the id `j`, or `o` if none has it.
abbrev pub last_of :
    {S Item : Type 0} → Managed S Item → String → List Item → Option Item → Option Item
last_of m j [] o = o
last_of m j (x ∷ xs) o = last_of m j xs (if m.id_of x == j then some x else o)

module _ {S Item : Type 0} (m : Managed S Item) (Inv : S → Type 0) (law : IsLawful m Inv)
    (j : String) where
  find-desired_items :
      (xs : List Item) (acc : GoMap Item)
      → find j (desired_items m xs acc) ≡ last_of m j xs (find j acc)
  unfolding desired_items
  find-desired_items [] acc = refl
  find-desired_items (x ∷ xs) acc =
      find-desired_items xs (store (m.id_of x) x acc)
      ∙ ap (last_of m j xs) (find-store (m.id_of x) j x acc)

  -- What the loop over the ids makes true, when `o` is desired for `j`.
  abbrev Good : Option Item → S × List String → Type 0
  Good none (s, current) = m.get j s ≡ none
  Good (some x) (s, current) =
      ((contains j current ≡ true) × (m.get j s ≡ some x))
      ⊎ ((contains j current ≡ false) × (m.get j s ≡ none))

  settle-Inv :
      (id : String) (d : GoMap Item) (s : S) (current : List String)
      → Inv s
      → Inv (settle m id d s current).0
  unfolding settle
  settle-Inv id d s current inv = elim (Option-cases (find id d)) [
    | inl stale ↦ rw (stale, settle) (law.remove_keeps id s inv)
    | inr (x, e) ↦
        rw (e, settle)
          (elim (Option-cases (m.get id s)) [
            | inl gone ↦ rw gone inv
            | inr (y, held) ↦ rw held (elim (Bool-cases (m.equal y x)) [
              | inl same ↦ rw same inv
              | inr changed ↦ rw changed (law.remove_keeps id s inv)
            ])
          ])
  ]

  -- A turn for another id leaves what belongs to `j`.
  settle-other :
      (id : String) (d : GoMap Item) (s : S) (current : List String)
      → Inv s
      → (id == j) ≡ false
      → (m.get j (settle m id d s current).0 ≡ m.get j s)
        × (contains j (settle m id d s current).1 ≡ contains j current)
  unfolding settle
  settle-other id d s current inv other =
      ground (arith, law.get_remove id j s inv, contains-without id j current)

  -- The turn for `j` itself.
  settle_self :
      (d : GoMap Item) (s : S) (current : List String)
      → Inv s
      → (contains j current ≡ true) × IsSome (m.get j s) ⊎ Good (find j d) (s, current)
      → Good (find j d) (settle m j d s current)
  unfolding settle
  settle_self d s current inv before = go (find j d) (m.get j s) refl before
    where
      removed : m.get j (m.remove j s) ≡ none
      removed = ground (arith, law.get_remove j j s inv, eq_iff j j)

      go :
          (o g : Option Item)
          → m.get j s ≡ g
          → (contains j current ≡ true) × IsSome g ⊎ Good o (s, current)
          → Good o (elim o [
            | none ↦ (m.remove j s, current)
            | some x ↦ elim g [
              | none ↦ (s, current)
              | some y ↦ if m.equal y x then (s, current) else (m.remove j s, without j current)
            ]
          ])
      go none g e b = removed
      go (some x) none e (inl h) = absurd h.1
      go (some x) none e (inr h) = h
      go (some x) (some y) e b = elim (Bool-cases (m.equal y x)) [
        | inl same ↦
            rw same
              (elim b [ inl h ↦ inl (h.0, e ∙ ap some ((law.equal_iff y x).0 same)) | inr h ↦ h ])
        | inr changed ↦
            rw changed (inr (ground (arith, contains-without j j current, eq_iff j j), removed))
      ]

  Good-transport :
      (o : Option Item) (s s' : S) (current current' : List String)
      → m.get j s' ≡ m.get j s
      → contains j current' ≡ contains j current
      → Good o (s, current)
      → Good o (s', current')
  Good-transport none s s' current current' e c g = e ∙ g
  Good-transport (some x) s s' current current' e c (inl h) = inl (c ∙ h.0, e ∙ h.1)
  Good-transport (some x) s s' current current' e c (inr h) = inr (c ∙ h.0, e ∙ h.1)

  -- Before its turn, an id is among those that the manager lists.
  abbrev Pending : List String → S × List String → Type 0
  Pending ids (s, current) =
      (contains j ids ≡ true) × (contains j current ≡ true) × IsSome (m.get j s)

  settle-turn :
      (id : String) (ids : List String) (d : GoMap Item) (s : S) (current : List String)
      → Inv s
      → Pending (id ∷ ids) (s, current) ⊎ Good (find j d) (s, current)
      → Pending ids (settle m id d s current) ⊎ Good (find j d) (settle m id d s current)
  settle-turn id ids d s current inv before = elim (String-cases id j) [
    | inl (same, e) ↦ inr (
        rw e (settle_self d s current inv (elim before [ inl p ↦ inl (p.1, p.2) | inr g ↦ inr g ])))
    | inr (other, n) ↦
        let kept = settle-other id d s current inv other in
        let out = settle m id d s current in
        elim before [
          | inl p ↦ inl (ground arith, kept.1 ∙ p.1, rw kept.0 p.2)
          | inr g ↦ inr (Good-transport (find j d) s out.0 current out.1 kept.0 kept.1 g)
        ]
  ]

  settle_all-Good :
      (ids : List String) (d : GoMap Item) (s : S) (current : List String)
      → Inv s
      → Pending ids (s, current) ⊎ Good (find j d) (s, current)
      → Inv (settle_all m ids d s current).0 × Good (find j d) (settle_all m ids d s current)
  unfolding settle_all
  settle_all-Good [] d s current inv (inl h) = absurd (ground arith)
  settle_all-Good [] d s current inv (inr h) = (inv, h)
  settle_all-Good (id ∷ ids) d s current inv before =
      let out = settle m id d s current in
      settle_all-Good ids d out.0 out.1 (settle-Inv id d s current inv)
        (settle-turn id ids d s current inv before)

  -- The loop that adds, for an id that is not current.
  add_absent-new :
      (xs : List Item) (current : List String) (s : S)
      → Inv s
      → contains j current ≡ false
      → (add_absent m xs current s).1 ≡ false
      → m.get j (add_absent m xs current s).0 ≡ last_of m j xs (m.get j s)
  unfolding add_absent
  add_absent-new [] current s inv out h = refl
  add_absent-new (x ∷ xs) current s inv out h = elim (Bool-cases (contains (m.id_of x) current)) [
    | inl known ↦ elim (String-cases (m.id_of x) j) [
      | inl (same, e) ↦ absurd (ground (arith, ap (λ (k : String). contains k current) e))
      | inr (other, n) ↦
          rw (known, other) (add_absent-new xs current s inv out (rw (known, add_absent) at h))
    ]
    | inr new ↦ rw new (
        add_absent-new xs current (m.add x s).0 (law.add_keeps x s inv) out (ground arith)
        ∙ ap (last_of m j xs) (law.get_add x j s inv (ground arith)))
  ]

  add_absent-current :
      (xs : List Item) (current : List String) (s : S)
      → Inv s
      → contains j current ≡ true
      → (add_absent m xs current s).1 ≡ false
      → m.get j (add_absent m xs current s).0 ≡ m.get j s
  unfolding add_absent
  add_absent-current [] current s inv known h = refl
  add_absent-current (x ∷ xs) current s inv known h =
      elim (Bool-cases (contains (m.id_of x) current)) [
        | inl there ↦ rw there (add_absent-current xs current s inv known (ground arith))
        | inr new ↦ elim (String-cases (m.id_of x) j) [
          | inl (same, e) ↦ absurd (ground (arith, ap (λ (k : String). contains k current) e))
          | inr (other, n) ↦ rw new (
              add_absent-current xs current (m.add x s).0 (law.add_keeps x s inv) known
                (ground arith)
              ∙ law.get_add x j s inv (ground arith)
              ∙ rw other refl)
        ]
      ]

  fresh-Good :
      (o : Option Item) (s : S) (current : List String)
      → contains j current ≡ false
      → m.get j s ≡ none
      → Good o (s, current)
  fresh-Good none s current out absent = absent
  fresh-Good (some x) s current out absent = inr (out, absent)

  -- What the second loop makes of what the first leaves.
  add_absent-wanted :
      (o : Option Item) (xs : List Item) (current : List String) (s : S)
      → Inv s
      → Good o (s, current)
      → o ≡ last_of m j xs none
      → (add_absent m xs current s).1 ≡ false
      → m.get j (add_absent m xs current s).0 ≡ o
  add_absent-wanted none xs current s inv g e h = elim (Bool-cases (contains j current)) [
    | inl there ↦ add_absent-current xs current s inv there h ∙ g
    | inr out ↦ add_absent-new xs current s inv out h ∙ ap (last_of m j xs) g ∙ sym e
  ]
  add_absent-wanted (some x) xs current s inv (inl g) e h =
      add_absent-current xs current s inv g.0 h ∙ g.1
  add_absent-wanted (some x) xs current s inv (inr g) e h =
      add_absent-new xs current s inv g.0 h ∙ ap (last_of m j xs) g.1 ∙ sym e

  -- A reconciliation that reports no error leaves for each id the last item of that id, or nothing.
  pub resync_get :
      (items : List Item) (s : S)
      → Inv s
      → (resync m items s).1 ≡ false
      → m.get j (resync m items s).0 ≡ last_of m j items none
  unfolding resync find
  resync_get items s inv h =
      let d = desired_items m items [] in
      let ids = m.ids s in
      let out = settle_all m ids d s ids in
      let settled = settle_all-Good ids d s ids inv (elim (Bool-cases (contains j ids)) [
        | inl there ↦ inl (there, there, law.ids_get j s inv there)
        | inr absent ↦ inr (fresh-Good (find j d) s ids absent (law.get_ids j s inv absent))
      ]) in
      add_absent-wanted (find j d) items out.1 out.0 settled.0 settled.1
        (find-desired_items items []) h
      ∙ find-desired_items items []
