-- ===== src/Base/GoMap.antt =====
-- Go maps keyed by text. A nil map reads as empty and panics when it is written. An allocated map
-- is an association list in the order that the next `range` over it takes; the theorems hold for
-- every list, so for every order.
use Prim.Native.String.{String}
use mathlib.Core.Path.{◌≡◌, refl}
use mathlib.Core.Option.{Option, none, some}
use mathlib.Core.List.{List, [], ◌∷◌}
use native.Mathlib.Omega.{arith}
use text.Mathlib.Text.{◌==◌}
use text.Mathlib.TextEquality.{eq_iff}
use margin_offer_system.Base.Tests.{if◌then◌else◌}
use margin_offer_system.Base.Run.{Run, done, panic}

abbrev pub Assoc {ℓ} : Type ℓ → Type ℓ
Assoc V = List (String × V)

pub data GoMap {ℓ} (V : Type ℓ) : Type ℓ where
  nil_map : GoMap V
  made : Assoc V → GoMap V

module _ {ℓ} {V : Type ℓ} where
  unfoldable pub lookup : String → Assoc V → Option V
  lookup k [] = none
  lookup k ((j, v) ∷ m) = if j == k then some v else lookup k m

  unfoldable pub insert : String → V → Assoc V → Assoc V
  insert k v [] = (k, v) ∷ []
  insert k v ((j, w) ∷ m) = if j == k then (k, v) ∷ m else (j, w) ∷ insert k v m

  unfoldable pub erase : String → Assoc V → Assoc V
  erase k [] = []
  erase k ((j, v) ∷ m) = let rest = erase k m in if j == k then rest else (j, v) ∷ rest

  -- A write is seen under its key, and under no other.
  pub lookup-insert :
      (key asked : String) (value : V) (m : Assoc V)
      → lookup asked (insert key value m) ≡ (if key == asked then some value else lookup asked m)
  unfolding lookup insert
  lookup-insert key asked value [] = refl
  lookup-insert key asked value ((held, old) ∷ rest) =
      let below = lookup-insert key asked value rest in
      ground (arith, below, eq_iff held key, eq_iff held asked, eq_iff key asked)

  pub lookup-erase :
      (k j : String) (m : Assoc V) → lookup j (erase k m) ≡ (if k == j then none else lookup j m)
  unfolding lookup erase
  lookup-erase k j [] = ground arith
  lookup-erase k j ((i, w) ∷ m) =
      ground (arith, eq_iff k j, eq_iff i k, eq_iff i j, lookup-erase k j m)

  -- `m[k]` with its `exists` flag.
  unfoldable pub get : String → GoMap V → Option V
  get k nil_map = none
  get k (made m) = lookup k m

  -- `m[k] = v`.
  unfoldable pub put : String → V → GoMap V → Run (GoMap V)
  put k v nil_map = panic
  put k v (made m) = done (made (insert k v m))

  -- `delete(m, k)`, which does nothing to a nil map.
  unfoldable pub delete : String → GoMap V → GoMap V
  delete k nil_map = nil_map
  delete k (made m) = made (erase k m)

  -- The entries in the order of the next `range`.
  unfoldable pub entries : GoMap V → Assoc V
  entries nil_map = []
  entries (made m) = m

  -- No key stands twice in an association list.
  abbrev pub IsDistinct : Assoc V → Type ℓ
  IsDistinct [] = Unit
  IsDistinct ((k, v) ∷ m) = (lookup k m ≡ none) × IsDistinct m

  pub insert-IsDistinct :
      (k : String) (v : V) (m : Assoc V) → IsDistinct m → IsDistinct (insert k v m)
  unfolding insert lookup
  insert-IsDistinct k v [] h = (refl, tt)
  insert-IsDistinct k v ((j, w) ∷ m) h =
      ground (arith, eq_iff j k, eq_iff k j, lookup-insert k j v m, insert-IsDistinct k v m h.1)

  pub erase-IsDistinct : (k : String) (m : Assoc V) → IsDistinct m → IsDistinct (erase k m)
  unfolding erase lookup
  erase-IsDistinct k [] h = tt
  erase-IsDistinct k ((j, w) ∷ m) h = ground (arith, lookup-erase k j m, erase-IsDistinct k m h.1)

  -- A new map that a loop fills with the entries of another.
  unfoldable pub copy_into : Assoc V → Assoc V → Assoc V
  copy_into [] copy = copy
  copy_into ((k, v) ∷ m) copy = copy_into m (insert k v copy)

  lookup-copy_into :
      (k : String) (m copy : Assoc V)
      → IsDistinct m
      → lookup k (copy_into m copy) ≡ elim (lookup k m) [ none ↦ lookup k copy | some v ↦ some v ]
  unfolding copy_into lookup
  lookup-copy_into k [] copy h = refl
  lookup-copy_into k ((j, v) ∷ m) copy h =
      ground (
        arith,
        lookup-copy_into k m (insert j v copy) h.1,
        lookup-insert j k v copy,
        eq_iff j k,
        h.0,
      )

  -- The copy reads as the original does.
  pub lookup-copy :
      (k : String) (m : Assoc V) → IsDistinct m → lookup k (copy_into m []) ≡ lookup k m
  unfolding lookup
  lookup-copy k m h = ground (arith, lookup-copy_into k m [] h)
