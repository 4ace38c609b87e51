-- ===== src/Logger/Json.antt =====
-- JSON values, and JavaScript's objects as their entries in order. Numbers are natural.
use junando.Common.{
  ℕ, ◌≤◌, String, Bool, Option, none, some, List, [], ◌∷◌, ◌≡◌, refl, arith, ◌==◌, eq_iff,
  if◌then◌else◌, Bool-cases, inl, inr,
}
use junando.Common.Text.{text_length}

mutual
  pub data Json : Type 0 where
    null : Json
    bool : Bool → Json
    num : ℕ → Json
    str : String → Json
    arr : Items → Json
    obj : Fields → Json

  pub data Items : Type 0 where
    nil : Items
    cons : Json → Items → Items

  pub data Fields : Type 0 where
    end : Fields
    field : String → Json → Fields → Fields

-- `o[k]`
unfoldable pub get_field : String → Fields → Option Json
get_field k end = none
get_field k (field j v rest) = if j == k then some v else get_field k rest

-- `{ ...o, [k]: v }`
unfoldable pub put_field : String → Json → Fields → Fields
put_field k v end = field k v end
put_field k v (field j w rest) = if j == k then field j v rest else field j w (put_field k v rest)

-- `{ ...o, ...p }`
unfoldable pub spread : Fields → Fields → Fields
spread o end = o
spread o (field k v rest) = spread (put_field k v o) rest

-- `[...]`
unfoldable pub str_items : List String → Items
str_items [] = nil
str_items (s ∷ rest) = cons (str s) (str_items rest)

-- `[...]` and `{ ... }`, by their parts.
unfoldable pub items_of : List Json → Items
items_of [] = nil
items_of (v ∷ rest) = cons v (items_of rest)

unfoldable pub fields_of : List (String × Json) → Fields
fields_of [] = end
fields_of ((k, v) ∷ rest) = field k v (fields_of rest)

pub get_field-put_field :
    (k j : String) (v : Json) (o : Fields)
    → get_field j (put_field k v o) ≡ (if k == j then some v else get_field j o)
unfolding get_field put_field
get_field-put_field k j v end = refl
get_field-put_field k j v (field i w rest) =
    ground (arith, eq_iff k j, eq_iff i k, eq_iff i j, get_field-put_field k j v rest)

-- A walk over a value that rewrites each text in it and keeps its shape.
unfoldable mutual
  pub map_strings : (String → String) → Json → Json
  map_strings f null = null
  map_strings f (bool b) = bool b
  map_strings f (num n) = num n
  map_strings f (str s) = str (f s)
  map_strings f (arr xs) = arr (map_strings_items f xs)
  map_strings f (obj o) = obj (map_strings_fields f o)

  pub map_strings_items : (String → String) → Items → Items
  map_strings_items f nil = nil
  map_strings_items f (cons x xs) = cons (map_strings f x) (map_strings_items f xs)

  pub map_strings_fields : (String → String) → Fields → Fields
  map_strings_fields f end = end
  map_strings_fields f (field k v rest) = field k (map_strings f v) (map_strings_fields f rest)

-- Every text in a value has at most `n` units.
unfoldable mutual
  pub AllShort : ℕ → Json → Type 0
  AllShort n null = Unit
  AllShort n (bool b) = Unit
  AllShort n (num m) = Unit
  AllShort n (str s) = text_length s ≤ n
  AllShort n (arr xs) = AllShortItems n xs
  AllShort n (obj o) = AllShortFields n o

  pub AllShortItems : ℕ → Items → Type 0
  AllShortItems n nil = Unit
  AllShortItems n (cons x xs) = AllShort n x × AllShortItems n xs

  pub AllShortFields : ℕ → Fields → Type 0
  AllShortFields n end = Unit
  AllShortFields n (field k v rest) = AllShort n v × AllShortFields n rest

module _ (f : String → String) (n : ℕ) (short : (s : String) → text_length (f s) ≤ n) where
  mutual
    unfolding map_strings AllShort

    map_strings-short : (v : Json) → AllShort n (map_strings f v)
    map_strings-short null = tt
    map_strings-short (bool b) = tt
    map_strings-short (num m) = tt
    map_strings-short (str s) = short s
    map_strings-short (arr xs) = map_strings_items-short xs
    map_strings-short (obj o) = map_strings_fields-short o

    map_strings_items-short : (xs : Items) → AllShortItems n (map_strings_items f xs)
    map_strings_items-short nil = tt
    map_strings_items-short (cons x xs) = (map_strings-short x, map_strings_items-short xs)

    map_strings_fields-short : (o : Fields) → AllShortFields n (map_strings_fields f o)
    map_strings_fields-short end = tt
    map_strings_fields-short (field k v rest) = (map_strings-short v, map_strings_fields-short rest)

  pub AllShort-map_strings : (v : Json) → AllShort n (map_strings f v)
  AllShort-map_strings = map_strings-short

  pub AllShortFields-map_strings : (o : Fields) → AllShortFields n (map_strings_fields f o)
  AllShortFields-map_strings = map_strings_fields-short

pub AllShortFields-put_field :
    (n : ℕ) (k : String) (v : Json) (o : Fields)
    → AllShort n v
    → AllShortFields n o
    → AllShortFields n (put_field k v o)
unfolding put_field AllShort
AllShortFields-put_field n k v end short all = (short, tt)
AllShortFields-put_field n k v (field j w rest) short all = elim (Bool-cases (j == k)) [
  | inl same ↦ rw same (short, all.1)
  | inr other ↦ rw other (all.0, AllShortFields-put_field n k v rest short all.1)
]
