-- ===== src/Clustering/Sorting.antt =====
-- The stable sort by a key.
use mathlib.Core.Path.{subst}
use junando.Common.{
  ℕ, zero, suc, ◌+◌, ◌≤◌, ◌<◌, ap, map, Bool, true, List, [], ◌∷◌, ◌≡◌, refl, some, arith, leb, ltb,
  if◌then◌else◌, Bool-cases, some_inj, ◌⊎◌, inl, inr, leb→le,
}
use junando.Common.Lists.{length, get_elem?, All, Any}
use junando.Clustering.{sort_by, insert_by}

abbrev pub count {ℓ} : {A : Type ℓ} → (A → Bool) → List A → ℕ
count p [] = 0
count p (x ∷ xs) = (if p x then 1 else 0) + count p xs

module _ {ℓ} {A : Type ℓ} where
  pub All-weaken {κ} :
      {P Q : A → Type κ} (xs : List A) → ((x : A) → P x → Q x) → All P xs → All Q xs
  All-weaken [] f h = tt
  All-weaken (x ∷ xs) f h = (f x h.0, All-weaken xs f h.1)

  pub All-get_elem? {κ} :
      (P : A → Type κ) (xs : List A) (i : ℕ) (v : A) → All P xs → get_elem? xs i ≡ some v → P v
  All-get_elem? P [] i v h e = cc
  All-get_elem? P (x ∷ xs) zero v h e = subst P (some_inj e) h.0
  All-get_elem? P (x ∷ xs) (suc i) v h e = All-get_elem? P xs i v h.1 e

module _ {ℓ} {A : Type ℓ} (key : A → ℕ) where
  count-insert_by :
      (p : A → Bool) (x : A) (xs : List A)
      → count p (insert_by key x xs) ≡ (if p x then 1 else 0) + count p xs
  unfolding insert_by
  count-insert_by p x [] = refl
  count-insert_by p x (y ∷ ys) = elim (Bool-cases (leb (key x) (key y))) [
    | inl h ↦ rw h
    | inr h ↦ rw h (omega (arith, count-insert_by p x ys))
  ]

  pub count-sort_by : (p : A → Bool) (xs : List A) → count p (sort_by key xs) ≡ count p xs
  unfolding sort_by
  count-sort_by p [] = refl
  count-sort_by p (x ∷ xs) = omega (arith, count-insert_by p x (sort_by key xs), count-sort_by p xs)

  length-insert_by : (x : A) (xs : List A) → length (insert_by key x xs) ≡ suc (length xs)
  unfolding insert_by
  length-insert_by x [] = refl
  length-insert_by x (y ∷ ys) = ground (arith, length-insert_by x ys)

  pub length-sort_by : (xs : List A) → length (sort_by key xs) ≡ length xs
  unfolding sort_by
  length-sort_by [] = refl
  length-sort_by (x ∷ xs) = omega (arith, length-insert_by x (sort_by key xs), length-sort_by xs)

  module _ {κ} (P : A → Type κ) where
    All-insert_by : (x : A) (xs : List A) → P x → All P xs → All P (insert_by key x xs)
    unfolding insert_by
    All-insert_by x [] h k = (h, k)
    All-insert_by x (y ∷ ys) h k = elim (Bool-cases (leb (key x) (key y))) [
      | inl e ↦ rw e (h, k)
      | inr e ↦ rw e (k.0, All-insert_by x ys h k.1)
    ]

    pub All-sort_by : (xs : List A) → All P xs → All P (sort_by key xs)
    unfolding sort_by
    All-sort_by [] h = tt
    All-sort_by (x ∷ xs) h = All-insert_by x (sort_by key xs) h.0 (All-sort_by xs h.1)

  -- Each element's key is at most the keys behind it.
  abbrev pub IsSorted : List A → Type 0
  IsSorted [] = Unit
  IsSorted (x ∷ xs) = All (λ y. key x ≤ key y) xs × IsSorted xs

  IsSorted-insert_by : (x : A) (xs : List A) → IsSorted xs → IsSorted (insert_by key x xs)
  unfolding insert_by
  IsSorted-insert_by x [] h = (tt, tt)
  IsSorted-insert_by x (y ∷ ys) h = elim (Bool-cases (leb (key x) (key y))) [
    | inl e ↦ let le = leb→le _ _ e in rw e ((le, All-weaken ys (λ z k. omega arith) h.0), h)
    | inr e ↦
        rw e
          (All-insert_by (λ z. key y ≤ key z) x ys (ground arith) h.0, IsSorted-insert_by x ys h.1)
  ]

  pub IsSorted-sort_by : (xs : List A) → IsSorted (sort_by key xs)
  unfolding sort_by
  IsSorted-sort_by [] = tt
  IsSorted-sort_by (x ∷ xs) = IsSorted-insert_by x (sort_by key xs) (IsSorted-sort_by xs)

-- In a sorted list of numbers, the one at index `i` has at least `i + 1` numbers up to it and at
-- most `i` below it.
pub count-le_sorted :
    (xs : List ℕ) (i v : ℕ)
    → IsSorted (λ n. n) xs
    → get_elem? xs i ≡ some v
    → suc i ≤ count (λ n. leb n v) xs
count-le_sorted [] i v s h = cc
count-le_sorted (x ∷ xs) zero v s h = ground arith
count-le_sorted (x ∷ xs) (suc i) v s h =
    ground (arith, All-get_elem? (λ y. x ≤ y) xs i v s.0 h, count-le_sorted xs i v s.1 h)

count-lt_above : (xs : List ℕ) (v x : ℕ) → v ≤ x → All (λ y. x ≤ y) xs → count (λ n. ltb n v) xs ≡ 0
count-lt_above [] v x h k = refl
count-lt_above (y ∷ ys) v x h k = ground (arith, count-lt_above ys v x h k.1)

pub count-lt_sorted :
    (xs : List ℕ) (i v : ℕ)
    → IsSorted (λ n. n) xs
    → get_elem? xs i ≡ some v
    → count (λ n. ltb n v) xs ≤ i
count-lt_sorted [] i v s h = cc
count-lt_sorted (x ∷ xs) zero v s h =
    let e = some_inj h in ground (arith, e, count-lt_above xs v x (omega (arith, e)) s.0)
count-lt_sorted (x ∷ xs) (suc i) v s h = ground (arith, count-lt_sorted xs i v s.1 h)

pub get_elem?_total {ℓ} :
    {A : Type ℓ} (xs : List A) (i : ℕ) → i < length xs → (v : A) × (get_elem? xs i ≡ some v)
get_elem?_total [] i h = elim h [ ]
get_elem?_total (x ∷ xs) zero h = (x, refl)
get_elem?_total (x ∷ xs) (suc i) h = get_elem?_total xs i (omega arith)

-- What is counted is there.
pub Any-of_count {ℓ} :
    {A : Type ℓ} (p : A → Bool) (xs : List A) → 0 < count p xs → Any (λ x. p x ≡ true) xs
Any-of_count p [] h = omega arith
Any-of_count p (x ∷ xs) h = elim (Bool-cases (p x)) [
  | inl e ↦ inl e
  | inr e ↦ inr (Any-of_count p xs (ground arith))
]

pub count-map {ℓ κ} :
    {A : Type ℓ} {B : Type κ} (p : B → Bool) (f : A → B) (xs : List A)
    → count p (map f xs) ≡ count (λ x. p (f x)) xs
count-map p f [] = refl
count-map p f (x ∷ xs) = omega (arith, count-map p f xs)

pub length-map {ℓ κ} :
    {A : Type ℓ} {B : Type κ} (f : A → B) (xs : List A) → length (map f xs) ≡ length xs
length-map f [] = refl
length-map f (x ∷ xs) = ap suc (length-map f xs)

pub count-eq-pos {ℓ} :
    {A : Type ℓ} (p : A → Bool) (xs : List A) (i : ℕ) (v : A)
    → get_elem? xs i ≡ some v
    → p v ≡ true
    → 0 < count p xs
count-eq-pos p [] i v h e = cc
count-eq-pos p (x ∷ xs) zero v h e = ground arith
count-eq-pos p (x ∷ xs) (suc i) v h e = ground (arith, count-eq-pos p xs i v h e)

-- The way back: what holds of the sorted list holds of the list.
module _ {ℓ} {A : Type ℓ} (key : A → ℕ) (P : A → Type 0) where
  All-of-insert_by : (x : A) (xs : List A) → All P (insert_by key x xs) → P x × All P xs
  unfolding insert_by
  All-of-insert_by x [] h = h
  All-of-insert_by x (y ∷ ys) h = elim (Bool-cases (leb (key x) (key y))) [
    | inl e ↦ rw e at h
    | inr e ↦
        let k : P y × All P (insert_by key x ys) = rw e at h in
        let (px, rest) = All-of-insert_by x ys k.1 in (px, (k.0, rest))
  ]

  pub All-of-sort_by : (xs : List A) → All P (sort_by key xs) → All P xs
  unfolding sort_by
  All-of-sort_by [] h = tt
  All-of-sort_by (x ∷ xs) h =
      let (px, rest) = All-of-insert_by x (sort_by key xs) h in (px, All-of-sort_by xs rest)

  Any-of-insert_by : (x : A) (xs : List A) → Any P (insert_by key x xs) → Any P (x ∷ xs)
  unfolding insert_by
  Any-of-insert_by x [] h = h
  Any-of-insert_by x (y ∷ ys) h = elim (Bool-cases (leb (key x) (key y))) [
    | inl e ↦ rw e at h
    | inr e ↦
        let k : P y ⊎ Any P (insert_by key x ys) = rw e at h in
        elim k [
          | inl py ↦ inr (inl py)
          | inr later ↦ elim (Any-of-insert_by x ys later) [ inl px ↦ inl px | inr l ↦ inr (inr l) ]
        ]
  ]

  pub Any-of-sort_by : (xs : List A) → Any P (sort_by key xs) → Any P xs
  unfolding sort_by
  Any-of-sort_by [] h = h
  Any-of-sort_by (x ∷ xs) h = elim (Any-of-insert_by x (sort_by key xs) h) [
    | inl px ↦ inl px
    | inr later ↦ inr (Any-of-sort_by xs later)
  ]
