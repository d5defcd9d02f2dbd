-- ===== src/Prelude/Dict.antt =====
-- Go maps with string keys, as association lists that hold each key once.
use Prim.Native.Nat.{suc, ◌≤◌}
use Prim.Native.String.{String}
use mathlib.Core.Path.{◌≡◌, refl}
use mathlib.Core.Bool.{Bool, true}
use mathlib.Core.Option.{Option, none, some}
use mathlib.Core.List.{List, [], ◌∷◌}
use native.Mathlib.Omega.{arith}
use text.Mathlib.Text.{◌==◌}
use text.Mathlib.TextEquality.{eq_iff}
use tool_mesh.Prelude.Tests.{if◌then◌else◌, is_some}
use tool_mesh.Prelude.Lists.{length}

module _ {ℓ} {V : Type ℓ} where
  -- m[key]
  unfoldable pub lookup : String → List (String × V) → Option V
  lookup key [] = none
  lookup key ((name, val) ∷ rest) = if name == key then some val else lookup key rest

  -- delete(m, key)
  unfoldable pub remove : String → List (String × V) → List (String × V)
  remove key [] = []
  remove key ((name, val) ∷ more) =
      let rest = remove key more in if name == key then rest else (name, val) ∷ rest

  -- m[key] = new
  unfoldable pub insert : String → V → List (String × V) → List (String × V)
  insert key new [] = (key, new) ∷ []
  insert key new ((name, val) ∷ rest) =
      if name == key then (name, new) ∷ rest else (name, val) ∷ insert key new rest

  pub lookup-insert :
      (key asked : String) (new : V) (m : List (String × V))
      → lookup asked (insert key new m) ≡ (if key == asked then some new else lookup asked m)
  unfolding insert lookup
  lookup-insert key asked new [] = refl
  lookup-insert key asked new ((name, val) ∷ rest) = ground (
    arith,
    lookup-insert key asked new rest,
    eq_iff name asked,
    eq_iff key asked,
    eq_iff name key,
  )

  pub lookup-remove :
      (k j : String) (m : List (String × V))
      → lookup j (remove k m) ≡ (if k == j then none else lookup j m)
  unfolding lookup remove
  lookup-remove k j [] = ground arith
  lookup-remove k j ((i, w) ∷ m) =
      ground (arith, lookup-remove k j m, eq_iff i k, eq_iff i j, eq_iff k j)

  -- Each key stands once.
  abbrev pub IsMap : List (String × V) → Type ℓ
  IsMap [] = Unit
  IsMap ((k, v) ∷ m) = (lookup k m ≡ none) × IsMap m

  pub insert-IsMap : (k : String) (v : V) (m : List (String × V)) → IsMap m → IsMap (insert k v m)
  unfolding lookup insert
  insert-IsMap k v [] h = (refl, tt)
  insert-IsMap k v ((j, w) ∷ m) h =
      ground (arith, insert-IsMap k v m h.1, lookup-insert k j v m, eq_iff j k, eq_iff k j)

  pub remove-IsMap : (k : String) (m : List (String × V)) → IsMap m → IsMap (remove k m)
  unfolding lookup remove
  remove-IsMap k [] h = tt
  remove-IsMap k ((j, w) ∷ m) h =
      ground (arith, remove-IsMap k m h.1, lookup-remove k j m, eq_iff j k, eq_iff k j)

  -- len(m) after a write and after a deletion.
  pub length-insert :
      (k : String) (v : V) (m : List (String × V))
      → length (insert k v m) ≡ (if is_some (lookup k m) then length m else suc (length m))
  unfolding lookup insert
  length-insert k v [] = refl
  length-insert k v ((j, w) ∷ m) = ground (arith, length-insert k v m)

  pub length-remove-le : (k : String) (m : List (String × V)) → length (remove k m) ≤ length m
  unfolding remove
  length-remove-le k [] = omega arith
  length-remove-le k ((j, w) ∷ m) = ground (arith, length-remove-le k m)

  -- Keep the entries that pass a test.
  unfoldable pub keep : (String → V → Bool) → List (String × V) → List (String × V)
  keep p [] = []
  keep p ((k, v) ∷ m) = let rest = keep p m in if p k v then (k, v) ∷ rest else rest

  pub lookup-keep-none :
      (p : String → V → Bool) (j : String) (m : List (String × V))
      → lookup j m ≡ none
      → lookup j (keep p m) ≡ none
  unfolding lookup keep
  lookup-keep-none p j [] h = refl
  lookup-keep-none p j ((k, v) ∷ m) h = ground (arith, lookup-keep-none p j m)

  pub keep-IsMap : (p : String → V → Bool) (m : List (String × V)) → IsMap m → IsMap (keep p m)
  unfolding keep
  keep-IsMap p [] h = tt
  keep-IsMap p ((k, v) ∷ m) h = ground (arith, keep-IsMap p m h.1, lookup-keep-none p k m h.0)

  pub lookup-keep :
      (p : String → V → Bool) (j : String) (v : V) (m : List (String × V))
      → IsMap m
      → lookup j m ≡ some v
      → lookup j (keep p m) ≡ (if p j v then some v else none)
  unfolding lookup keep
  lookup-keep p j v [] h e = cc
  lookup-keep p j v ((k, w) ∷ m) h e =
      ground (arith, eq_iff k j, lookup-keep p j v m h.1, lookup-keep-none p j m)

  pub lookup-insert_self :
      (k : String) (v : V) (m : List (String × V)) → lookup k (insert k v m) ≡ some v
  lookup-insert_self k v m = ground (arith, lookup-insert k k v m, eq_iff k k)

  -- What is found after a removal was there before.
  pub keep-lookup :
      (p : String → V → Bool) (j : String) (v : V) (m : List (String × V))
      → IsMap m
      → lookup j (keep p m) ≡ some v
      → (lookup j m ≡ some v) × (p j v ≡ true)
  unfolding lookup keep
  keep-lookup p j v [] h e = cc
  keep-lookup p j v ((k, w) ∷ m) h e =
      ground (arith, eq_iff k j, keep-lookup p j v m h.1, lookup-keep-none p k m h.0)
