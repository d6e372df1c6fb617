-- ===== src/Prelude/OrderedMap.antt =====
-- A `Map` with text keys, as the list of its entries in insertion order: setting a key that is
-- present keeps its place, and a new one goes to the end.
use Prim.Native.Nat.{◌+◌, ◌≤◌}
use Prim.Native.String.{String}
use mathlib.Core.Path.{◌≡◌, refl}
use mathlib.Core.Bool.{Bool, true, false}
use mathlib.Core.Option.{Option, none, some}
use mathlib.Core.List.{List, [], ◌∷◌}
use native.Mathlib.Omega.{arith}
use text.Mathlib.Text.{◌==◌}
use text.Mathlib.TextEquality.{eq_iff}
use acdp_control_plane.Prelude.Tests.{if◌then◌else◌}
use acdp_control_plane.Prelude.Lists.{length, All}

module _ {ℓ} {V : Type ℓ} where
  -- `map.get(key)`
  unfoldable pub lookup : (key : String) (entries : List (String × V)) → Option V
  lookup _ [] = none
  lookup key ((other, value) ∷ entries) = if other == key then some value else lookup key entries

  -- `map.has(key)`
  unfoldable pub has : (key : String) (entries : List (String × V)) → Bool
  has _ [] = false
  has key ((other, _) ∷ entries) = if other == key then true else has key entries

  -- `map.delete(key)`
  unfoldable pub remove : String → List (String × V) → List (String × V)
  remove k [] = []
  remove k ((j, v) ∷ m) = let rest = remove k m in if j == k then rest else (j, v) ∷ rest

  -- `map.set(key, value)`
  unfoldable pub insert : (key : String) (value : V) → List (String × V) → List (String × V)
  insert key value [] = (key, value) ∷ []
  insert key value ((other, old) ∷ entries) =
      let rest = insert key value entries in
      if other == key then (key, value) ∷ entries else (other, old) ∷ rest

  pub lookup-insert :
      (set asked : String) (value : V) (entries : List (String × V))
      → lookup asked (insert set value entries)
        ≡ (if set == asked then some value else lookup asked entries)
  unfolding insert lookup
  lookup-insert set asked value [] = refl
  lookup-insert set asked value ((other, old) ∷ entries) = ground (
    arith,
    lookup-insert set asked value entries,
    eq_iff set asked,
    eq_iff other set,
    eq_iff other asked,
  )

  pub lookup-remove :
      (k j : String) (m : List (String × V))
      → lookup j (remove k m) ≡ (if k == j then none else lookup j m)
  unfolding lookup remove
  lookup-remove k j [] = ground arith
  lookup-remove k j ((i, w) ∷ m) =
      ground (arith, eq_iff k j, eq_iff i k, eq_iff i j, lookup-remove k j m)

  pub length-insert :
      (k : String) (v : V) (m : List (String × V)) → length (insert k v m) ≤ length m + 1
  unfolding insert
  length-insert k v [] = omega arith
  length-insert k v ((j, w) ∷ m) = ground (arith, length-insert k v m)

  pub length-remove : (k : String) (m : List (String × V)) → length (remove k m) ≤ length m
  unfolding remove
  length-remove k [] = omega arith
  length-remove k ((j, w) ∷ m) = ground (arith, length-remove k m)

  pub length-remove_present :
      (k : String) (m : List (String × V)) (v : V)
      → lookup k m ≡ some v
      → length (remove k m) + 1 ≤ length m
  unfolding lookup remove
  length-remove_present k [] v h = cc
  length-remove_present k ((j, w) ∷ m) v h =
      ground (arith, length-remove k m, length-remove_present k m v)

  pub has-eq-lookup :
      (k : String) (m : List (String × V))
      → has k m ≡ (elim (lookup k m) [ none ↦ false | some v ↦ true ])
  unfolding has lookup
  has-eq-lookup k [] = refl
  has-eq-lookup k ((j, v) ∷ m) = ground (arith, has-eq-lookup k m)

module _ {ℓ κ} {V : Type ℓ} (P : String → V → Type κ) where
  -- What holds of every entry.
  abbrev pub Entries : List (String × V) → Type κ
  Entries m = All (λ e. P e.0 e.1) m

  pub Entries-lookup :
      (k : String) (m : List (String × V)) (v : V) → Entries m → lookup k m ≡ some v → P k v
  unfolding lookup
  Entries-lookup k [] v h e = cc
  Entries-lookup k ((j, w) ∷ m) v (p, h) e = ground (arith, eq_iff j k, Entries-lookup k m v h)

  pub Entries-insert :
      (k : String) (v : V) (m : List (String × V)) → Entries m → P k v → Entries (insert k v m)
  unfolding insert
  Entries-insert k v [] h q = (q, tt)
  Entries-insert k v ((j, w) ∷ m) (p, h) q = ground (arith, Entries-insert k v m h q)

  pub Entries-remove : (k : String) (m : List (String × V)) → Entries m → Entries (remove k m)
  unfolding remove
  Entries-remove k [] h = tt
  Entries-remove k ((j, w) ∷ m) (p, h) = ground (arith, Entries-remove k m h)

-- The keys of a `Map` are distinct.
abbrev pub IsMap {ℓ} : {V : Type ℓ} → List (String × V) → Type ℓ
IsMap [] = Unit
IsMap ((k, v) ∷ m) = (lookup k m ≡ none) × IsMap m

module _ {ℓ} {V : Type ℓ} where
  pub insert-IsMap : (k : String) (v : V) (m : List (String × V)) → IsMap m → IsMap (insert k v m)
  unfolding insert lookup
  insert-IsMap k v [] h = (refl, tt)
  insert-IsMap k v ((j, w) ∷ m) (new, h) =
      ground (arith, eq_iff j k, eq_iff k j, lookup-insert k j v m, insert-IsMap k v m h)

  pub remove-IsMap : (k : String) (m : List (String × V)) → IsMap m → IsMap (remove k m)
  unfolding remove
  remove-IsMap k [] h = tt
  remove-IsMap k ((j, w) ∷ m) (new, h) =
      ground (arith, eq_iff k j, lookup-remove k j m, remove-IsMap k m h)
