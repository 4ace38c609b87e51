-- ===== src/Common/Assoc.antt =====
-- JavaScript's `Map<string, V>` and `Record<string, V>` as association lists in insertion order:
-- writing to a key that is there keeps its place.
use Prim.Native.String.{String}
use mathlib.Core.Path.{◌≡◌, refl}
use mathlib.Core.Bool.{Bool}
use mathlib.Core.Option.{Option, none, some}
use mathlib.Core.List.{List, [], ◌∷◌}
use native.Mathlib.Omega.{arith}
use text.Mathlib.Text.{◌==◌}
use text.Mathlib.TextEquality.{eq_iff}
use junando.Common.Bools.{if◌then◌else◌, is_some}

module _ {ℓ} {V : Type ℓ} where
  -- `m.get(k)`, `r[k]`
  unfoldable pub lookup : String → List (String × V) → Option V
  lookup key (entry ∷ entries) =
      let later = lookup key entries in if entry.0 == key then some entry.1 else later
  lookup key [] = none

  -- `m.set(k, v)`, `r[k] = v`
  unfoldable pub insert : String → V → List (String × V) → List (String × V)
  insert key value (entry ∷ entries) =
      let later = insert key value entries in
      if entry.0 == key then (entry.0, value) ∷ entries else entry ∷ later
  insert key value [] = (key, value) ∷ []

  -- `m.delete(k)`, `delete r[k]`
  unfoldable pub remove : String → List (String × V) → List (String × V)
  remove k [] = []
  remove k ((j, v) ∷ m) = let rest = remove k m in if j == k then rest else (j, v) ∷ rest

  -- `m.has(k)`
  abbrev pub has : String → List (String × V) → Bool
  has k m = is_some (lookup k m)

  -- What is read behind a write: the value at the key that was written, and elsewhere what was there.
  pub lookup-insert :
      (written read : String) (value : V) (entries : List (String × V))
      → lookup read (insert written value entries)
        ≡ (if written == read then some value else lookup read entries)
  unfolding insert lookup
  lookup-insert written read value (entry ∷ entries) =
      let later = lookup-insert written read value entries in
      ground (later, eq_iff entry.0 read, eq_iff entry.0 written, eq_iff written read, arith)
  lookup-insert written read value [] = refl

  pub lookup-remove :
      (k j : String) (m : List (String × V))
      → lookup j (remove k m) ≡ (if k == j then none else lookup j m)
  unfolding lookup remove
  lookup-remove k j [] = ground arith
  lookup-remove k j ((i, v) ∷ m) =
      ground (arith, lookup-remove k j m, eq_iff i k, eq_iff i j, eq_iff k j)

pub ruleset map_laws = (lookup-insert, lookup-remove)
