-- ===== src/Base/Maps.antt =====
-- Go maps with string keys, as association lists: `lookup` and `insert` see the first entry of a
-- key, and the entries' order stands for nothing.
use Prim.Native.Nat.{suc, ◌≤◌}
use mathlib.Core.Path.{◌≡◌, refl}
use mathlib.Core.List.{List, [], ◌∷◌}
use mathlib.Core.Option.{Option, none, some}
use native.Mathlib.Omega.{arith}
use bugfree_go_sdk.Base.Tests.{if◌then◌else◌, is_some}
use bugfree_go_sdk.Base.Lists.{length}
use bugfree_go_sdk.Base.Bytes.{Text, text_eq, text_eq_iff, text_eq_refl}

abbrev pub Map {ℓ} : Type ℓ → Type ℓ
Map V = List (Text × V)

module _ {ℓ} {V : Type ℓ} where
  -- m[k], with its presence
  unfoldable pub lookup : Text → Map V → Option V
  lookup k [] = none
  lookup k ((j, v) ∷ m) = if text_eq j k then some v else lookup k m

  -- m[k] = v
  unfoldable pub insert : Text → V → Map V → Map V
  insert k v [] = (k, v) ∷ []
  insert k v ((j, w) ∷ m) = if text_eq j k then (j, v) ∷ m else (j, w) ∷ insert k v m

  pub lookup-insert :
      (k j : Text) (v : V) (m : Map V)
      → lookup j (insert k v m) ≡ (if text_eq k j then some v else lookup j m)
  unfolding lookup insert
  lookup-insert k j v [] = refl
  lookup-insert k j v ((i, w) ∷ m) =
      ground (arith, text_eq_iff k j, text_eq_iff i k, text_eq_iff i j, lookup-insert k j v m)

  pub lookup-insert_self : (k : Text) (v : V) (m : Map V) → lookup k (insert k v m) ≡ some v
  lookup-insert_self k v m = simp (lookup-insert, text_eq_refl)

  -- for key, value := range from { into[key] = value }
  unfoldable pub merge : Map V → Map V → Map V
  merge into [] = into
  merge into ((k, v) ∷ from) = insert k v (merge into from)

  pub lookup-merge :
      (into from : Map V) (j : Text)
      → lookup j (merge into from) ≡ elim (lookup j from) [ none ↦ lookup j into | some v ↦ some v ]
  unfolding merge lookup
  lookup-merge into [] j = refl
  lookup-merge into ((k, v) ∷ from) j =
      ground (arith, lookup-insert k j v (merge into from), lookup-merge into from j)

  -- Keys are distinct.
  abbrev pub IsMap : Map V → Type ℓ
  IsMap [] = Unit
  IsMap ((k, v) ∷ m) = (lookup k m ≡ none) × IsMap m

  pub insert-IsMap : (k : Text) (v : V) (m : Map V) → IsMap m → IsMap (insert k v m)
  unfolding insert lookup
  insert-IsMap k v [] h = (refl, tt)
  insert-IsMap k v ((j, w) ∷ m) h =
      ground
        (arith, lookup-insert k j v m, insert-IsMap k v m h.1, text_eq_iff k j, text_eq_iff j k)

  pub length-insert :
      (k : Text) (v : V) (m : Map V)
      → length (insert k v m) ≡ (if is_some (lookup k m) then length m else suc (length m))
  unfolding insert lookup
  length-insert k v [] = refl
  length-insert k v ((j, w) ∷ m) = ground (arith, length-insert k v m)

  pub length-insert-le : (k : Text) (v : V) (m : Map V) → length (insert k v m) ≤ suc (length m)
  length-insert-le k v m = ground (arith, length-insert k v m)
