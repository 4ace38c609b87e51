-- ===== src/Common/Members.antt =====
-- Membership in a list of texts, and empty lists.
use junando.Common.Bools.{Bool-cases}
use junando.Common.Lists.{any_of, Any, All}
use Prim.Native.String.{String}
use mathlib.Core.Path.{◌≡◌, refl}
use mathlib.Core.Logic.{inl, inr}
use mathlib.Core.Bool.{true}
use mathlib.Core.List.{List, [], ◌∷◌, ◌++◌}
use text.Mathlib.Text.{◌==◌}
use text.Mathlib.TextEquality.{eq_iff}

pub Any-any_of :
    (value : String) (us : List String)
    → any_of (λ x. x == value) us ≡ true
    → Any (λ x. x ≡ value) us
unfolding any_of
Any-any_of value [] h = absurd (cc h)
Any-any_of value (u ∷ us) h = elim (Bool-cases (u == value)) [
  | inl same ↦ inl ((eq_iff u value).0 same)
  | inr other ↦ inr (Any-any_of value us (rw other at h))
]

module _ {ℓ} {A : Type ℓ} where
  pub append-nil : (xs ys : List A) → xs ++ ys ≡ [] → (xs ≡ []) × (ys ≡ [])
  append-nil [] ys h = (refl, h)
  append-nil (x ∷ xs) ys h = absurd (cc h)

  -- `[...x, ...y, ...z]`
  unfoldable pub flatten : List (List A) → List A
  flatten [] = []
  flatten (xs ∷ rest) = xs ++ flatten rest

  pub flatten-nil : (xss : List (List A)) → flatten xss ≡ [] → All (λ xs. xs ≡ []) xss
  unfolding flatten
  flatten-nil [] h = tt
  flatten-nil (xs ∷ rest) h = let (l, r) = append-nil xs (flatten rest) h in (l, flatten-nil rest r)
