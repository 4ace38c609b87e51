-- ===== src/Ingest/Keyed.antt =====
-- Runs that are told apart by keys, and the keys that are in flight, as the runners of Loki and of Prometheus
-- keep them.
use junando.Common.{
  ℕ, ◌+◌, ◌≤◌, String, Bool, false, not, ◌||◌, List, [], ◌∷◌, ◌++◌, ◌≡◌, ◌∙◌, sym, ap, arith, ◌==◌,
  if◌then◌else◌, leb, Bool-cases, inl, inr, eq_iff,
}
use junando.Common.Lists.{keep}
use junando.Common.Assoc.{insert, remove, has, lookup-insert, lookup-remove}

-- The keys in flight.
abbrev pub Flags : Type 0
Flags = List (String × Unit {0})

module _ {A : Type 0} (key : A → String) where
  abbrev pub is_keyed : String → A → ℕ
  is_keyed c x = if key x == c then 1 else 0

  -- How many have the key.
  abbrev pub keyed : String → List A → ℕ
  keyed c [] = 0
  keyed c (x ∷ xs) = is_keyed c x + keyed c xs

  -- The key of each is put in flight.
  unfoldable pub insert_all : List A → Flags → Flags
  insert_all [] flags = flags
  insert_all (x ∷ xs) flags = insert_all xs (insert (key x) tt flags)

  -- The key is not in flight.
  unfoldable pub is_free : Flags → A → Bool
  is_free flags x = not (has (key x) flags)

  keyed-append : (c : String) (xs ys : List A) → keyed c (xs ++ ys) ≡ keyed c xs + keyed c ys
  keyed-append c [] ys = omega arith
  keyed-append c (x ∷ xs) ys = omega (arith, keyed-append c xs ys)

  keyed-middle :
      (c : String) (before : List A) (x : A) (after : List A)
      → keyed c (before ++ x ∷ after) ≡ is_keyed c x + keyed c (before ++ after)
  keyed-middle c before x after =
      omega (arith, keyed-append c before (x ∷ after), keyed-append c before after)

  has-insert_all :
      (c : String) (xs : List A) (flags : Flags)
      → has c (insert_all xs flags) ≡ (has c flags || leb 1 (keyed c xs))
  unfolding insert_all
  has-insert_all c [] flags = ground arith
  has-insert_all c (x ∷ xs) flags =
      let later = has-insert_all c xs (insert (key x) tt flags) in
      let added = lookup-insert (key x) c tt flags in
      elim (Bool-cases (key x == c)) [
        | inl same ↦ ground (arith, same, later, added)
        | inr other ↦ ground (arith, other, later, added)
      ]

  keyed-free :
      (c : String) (flags : Flags) (xs : List A)
      → keyed c (keep (is_free flags) xs) ≡ (if has c flags then 0 else keyed c xs)
  unfolding keep is_free
  keyed-free c flags [] = ground arith
  keyed-free c flags (x ∷ xs) = elim (Bool-cases (key x == c)) [
    | inl same ↦
        let one : key x ≡ c = (eq_iff _ c).0 same in
        ground (arith, same, ap (λ n. has n flags) one, keyed-free c flags xs)
    | inr other ↦ ground (arith, other, keyed-free c flags xs)
  ]

-- For every key, the runs with it are none or one, as the key is in flight or not.
abbrev pub IsExclusive : {R : Type 0} → (R → String) → List R → Flags → Type 0
IsExclusive run_key runs flags =
    (c : String) → keyed run_key c runs ≡ (if has c flags then 1 else 0)

module _ {A R : Type 0} (key : A → String) (run_key : R → String) where
  -- A tick: of rules whose keys are different, those that are free get a run.
  pub start-IsExclusive :
      (all : List A) (new_runs : List R) (runs : List R) (flags : Flags)
      → ((c : String) → keyed key c all ≤ 1)
      → ((c : String) → keyed run_key c new_runs ≡ keyed key c (keep (is_free key flags) all))
      → IsExclusive run_key runs flags
      → IsExclusive run_key (runs ++ new_runs) (insert_all key (keep (is_free key flags) all) flags)
  start-IsExclusive all new_runs runs flags different started h c =
      let free = keep (is_free key flags) all in
      let split = keyed-append run_key c runs new_runs in
      elim (Bool-cases (has c flags)) [
        | inl there ↦
            let occupied : keyed key c free ≡ 0 = rw there at (keyed-free key c flags all) in
            let one : keyed run_key c runs ≡ 1 = rw there at (h c) in
            rw (split, started c, has-insert_all key c free flags, there)
              (omega (arith, one, occupied))
        | inr absent ↦
            let open_rules : keyed key c free ≡ keyed key c all =
              rw absent at (keyed-free key c flags all) in
            let zero_runs : keyed run_key c runs ≡ 0 = rw absent at (h c) in
            rw (split, started c, has-insert_all key c free flags, absent)
              (ground (arith, zero_runs, open_rules, different c))
      ]

module _ {R : Type 0} (run_key : R → String) where
  -- The end of a run.
  pub settle-IsExclusive :
      (before : List R) (run : R) (after : List R) (flags : Flags)
      → IsExclusive run_key (before ++ run ∷ after) flags
      → IsExclusive run_key (before ++ after) (remove (run_key run) flags)
  settle-IsExclusive before run after flags h c =
      let whole = sym (keyed-middle run_key c before run after) ∙ h c in
      let removed = lookup-remove (run_key run) c flags in
      elim (Bool-cases (run_key run == c)) [
        | inl same ↦
            let gone : has c (remove (run_key run) flags) ≡ false = ground (arith, same, removed) in
            rw gone (ground (arith, whole, same))
        | inr other ↦
            let kept : has c (remove (run_key run) flags) ≡ has c flags =
              ground (arith, other, removed) in
            rw kept (ground (arith, whole, other))
      ]

  -- A run that goes on under its key.
  pub advance-IsExclusive :
      (before : List R) (run next : R) (after : List R) (flags : Flags)
      → run_key next ≡ run_key run
      → IsExclusive run_key (before ++ run ∷ after) flags
      → IsExclusive run_key (before ++ next ∷ after) flags
  advance-IsExclusive before run next after flags same h c =
      keyed-middle run_key c before next after
      ∙ ap (λ (k : String). (if k == c then 1 else 0) + keyed run_key c (before ++ after)) same
      ∙ sym (keyed-middle run_key c before run after)
      ∙ h c
