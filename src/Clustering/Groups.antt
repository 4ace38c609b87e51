-- ===== src/Clustering/Groups.antt =====
-- Grouping by fingerprint: which alerts a group holds, and in which order.
use mathlib.Core.List.{foldl, append_assoc}
use junando.Common.{
  ℕ, ◌+◌, ◌<◌, String, Bool, false, List, [], ◌∷◌, ◌++◌, ◌≡◌, ◌∙◌, ap, refl, Option, none, some,
  or_else, arith, ◌==◌, eq_iff, Bool-cases, inl, inr,
}
use junando.Common.Lists.{length, length-append, keep, All}
use junando.Common.Assoc.{lookup, insert, lookup-insert}
use junando.Domain.Alert.{NormalizedAlert}
use junando.Clustering.{add_to_group, group_alerts}

abbrev pub Groups : Type 0
Groups = List (String × List NormalizedAlert)

-- What a key holds after more alerts have been pushed to it.
abbrev pub pushed :
    Option (List NormalizedAlert) → List NormalizedAlert → Option (List NormalizedAlert)
pushed o [] = o
pushed o (a ∷ more) = some (or_else o [] ++ a ∷ more)

abbrev pub total : Groups → ℕ
total [] = 0
total ((fp, group) ∷ rest) = length group + total rest

-- No entry has the key.
abbrev pub Absent : String → Groups → Type 0
Absent fp = All (λ e. (e.0 == fp) ≡ false)

abbrev pub HasDistinctKeys : Groups → Type 0
HasDistinctKeys [] = Unit
HasDistinctKeys ((fp, group) ∷ rest) = Absent fp rest × HasDistinctKeys rest

abbrev pub AllNonEmpty : Groups → Type 0
AllNonEmpty = All (λ e. 0 < length e.1)

-- Pushing to one group makes the whole one alert larger, and keeps the rest.
module _ (k : String) (a : NormalizedAlert) where
  total-push :
      (groups : Groups)
      → total (insert k (or_else (lookup k groups) [] ++ a ∷ []) groups) ≡ total groups + 1
  unfolding lookup insert
  total-push [] = refl
  total-push ((j, group) ∷ rest) = ground (arith, total-push rest, length-append group (a ∷ []))

  AllNonEmpty-push :
      (xs : List NormalizedAlert) (groups : Groups)
      → AllNonEmpty groups
      → AllNonEmpty (insert k (xs ++ a ∷ []) groups)
  unfolding insert
  AllNonEmpty-push xs [] h = (omega (arith, length-append xs (a ∷ [])), tt)
  AllNonEmpty-push xs ((j, group) ∷ rest) h =
      ground (arith, length-append xs (a ∷ []), AllNonEmpty-push xs rest)

module _ (k : String) (v : List NormalizedAlert) where
  Absent-insert :
      (j : String) (groups : Groups)
      → (k == j) ≡ false
      → Absent j groups
      → Absent j (insert k v groups)
  unfolding insert
  Absent-insert j [] ne h = (ne, tt)
  Absent-insert j ((i, group) ∷ rest) ne h = ground (arith, Absent-insert j rest)

  HasDistinctKeys-insert :
      (groups : Groups) → HasDistinctKeys groups → HasDistinctKeys (insert k v groups)
  unfolding insert
  HasDistinctKeys-insert [] h = (tt, tt)
  HasDistinctKeys-insert ((j, group) ∷ rest) h =
      ground (arith, eq_iff j k, eq_iff k j, Absent-insert j rest, HasDistinctKeys-insert rest)

module _ (fp : NormalizedAlert → String) where
  abbrev member : String → NormalizedAlert → Bool
  member key a = fp a == key

  pushed-pushed :
      (o : Option (List NormalizedAlert)) (a : NormalizedAlert) (rest : List NormalizedAlert)
      → pushed (some (or_else o [] ++ a ∷ [])) rest ≡ pushed o (a ∷ rest)
  pushed-pushed o a [] = refl
  pushed-pushed o a (b ∷ rest) = ap some (append_assoc (or_else o []) (a ∷ []) (b ∷ rest))

  lookup-foldl :
      (key : String) (groups : Groups) (alerts : List NormalizedAlert)
      → lookup key (foldl (add_to_group fp) groups alerts)
        ≡ pushed (lookup key groups) (keep (member key) alerts)
  unfolding keep add_to_group
  lookup-foldl key groups [] = refl
  lookup-foldl key groups (a ∷ rest) =
      let value = or_else (lookup (fp a) groups) [] ++ a ∷ [] in
      let step = lookup-insert (fp a) key value groups in
      let later = lookup-foldl key (insert (fp a) value groups) rest in
      elim (Bool-cases (fp a == key)) [
        | inl same ↦ rw same (
            later
            ∙ rw (step, same)
                (rw ((eq_iff _ _).0 same)
                  (pushed-pushed (lookup key groups) a (keep (member key) rest))))
        | inr other ↦ rw other (later ∙ rw (step, other))
      ]

  foldl-IsSound :
      (groups : Groups) (alerts : List NormalizedAlert)
      → AllNonEmpty groups
      → HasDistinctKeys groups
      → AllNonEmpty (foldl (add_to_group fp) groups alerts)
        × HasDistinctKeys (foldl (add_to_group fp) groups alerts)
        × (total (foldl (add_to_group fp) groups alerts) ≡ total groups + length alerts)
  unfolding add_to_group
  foldl-IsSound groups [] h k = (h, k, omega arith)
  foldl-IsSound groups (a ∷ rest) h k =
      let old = or_else (lookup (fp a) groups) [] in
      let (full, distinct, same) =
        foldl-IsSound (add_to_group fp groups a) rest (AllNonEmpty-push (fp a) a old groups h)
          (HasDistinctKeys-insert (fp a) (old ++ a ∷ []) groups k) in
      (full, distinct, omega (arith, same, total-push (fp a) a groups))

  pub group_alerts-lookup :
      (key : String) (alerts : List NormalizedAlert)
      → lookup key (group_alerts fp alerts) ≡ pushed none (keep (λ a. fp a == key) alerts)
  unfolding group_alerts lookup
  group_alerts-lookup key alerts = lookup-foldl key [] alerts

  pub group_alerts-IsSound :
      (alerts : List NormalizedAlert)
      → AllNonEmpty (group_alerts fp alerts)
        × HasDistinctKeys (group_alerts fp alerts)
        × (total (group_alerts fp alerts) ≡ length alerts)
  unfolding group_alerts
  group_alerts-IsSound alerts =
      let (full, distinct, same) = foldl-IsSound [] alerts tt tt in
      (full, distinct, omega (arith, same))
