-- ===== src/Bridge/Resync.antt =====
-- internal/bridge/ingress_handler.go and site_to_site_handler.go: the reconciliation that both
-- handlers make, over whatever a manager keeps: rules or tunnels, by their ids.
pub mod Refines
use plexd.Base.{
  String, List, [], ◌∷◌, Bool, true, false, Option, none, some, if◌then◌else◌, contains, ◌==◌,
}
use plexd.Base.GoMap.{GoMap, find, store}

-- The operations of a manager with state `S` that keeps values of type `Item`.
pub record Managed (S Item : Type 0) : Type 0 where
  pub id_of : Item → String
  pub ids : S → List String
  pub get : String → S → Option Item
  pub remove : String → S → S
  -- With whether an error is returned.
  pub add : Item → S → S × Bool
  pub equal : Item → Item → Bool

-- `delete(currentSet, id)`
unfoldable pub without : String → List String → List String
without id [] = []
without id (k ∷ ks) = let rest = without id ks in if k == id then rest else k ∷ rest

module _ {S Item : Type 0} (m : Managed S Item) where
  -- The desired items by their ids: the last of an id counts.
  unfoldable pub desired_items : List Item → GoMap Item → GoMap Item
  desired_items [] acc = acc
  desired_items (x ∷ xs) acc = desired_items xs (store (m.id_of x) x acc)

  -- The turn of the loop for one id: stale, changed or as desired.
  unfoldable pub settle : String → GoMap Item → S → List String → S × List String
  settle id desired s current = elim (find id desired) [
    | none ↦ (m.remove id s, current)
    | some x ↦ elim (m.get id s) [
      | none ↦ (s, current)
      | some y ↦ if m.equal y x then (s, current) else (m.remove id s, without id current)
    ]
  ]

  unfoldable pub settle_all : List String → GoMap Item → S → List String → S × List String
  settle_all [] desired s current = (s, current)
  settle_all (id ∷ ids) desired s current =
      let (s', current') = settle id desired s current in settle_all ids desired s' current'

  unfoldable pub add_absent : List Item → List String → S → S × Bool
  add_absent [] current s = (s, false)
  add_absent (x ∷ xs) current s =
      if contains (m.id_of x) current
      then (let out = add_absent xs current s in out)
      else (let (s', failed) = m.add x s in
          let (s'', more) = add_absent xs current s' in (s'', if failed then true else more))

  unfoldable pub resync : List Item → S → S × Bool
  resync items s =
      let (s', current) = settle_all (m.ids s) (desired_items items []) s (m.ids s) in
      add_absent items current s'
