-- ===== src/Worker/Fields/Rows.antt =====
-- A printer of rows, with every field in quotes, and what `parseRow` makes of its rows.
use Prim.Native.Char.{Char, code}
use Prim.Native.String
use text.Mathlib.TextLemmas.{nil-append, cons-append, append-nil, append_assoc}
use junando.Common.{String, true, false, List, [], ◌∷◌, ◌≡◌, ◌∙◌, ap, eqb, arith}
use junando.Common.Lists.{All}
use junando.Common.Text.{trim}
use junando.Worker.Fields.{row_from, piece_of, parse_row, quote, stays}

-- The text has no quote.
abbrev pub IsPlain : String → Type 0
IsPlain String.[] = Unit
IsPlain (String.◌∷◌ c s) = (eqb (code c) quote ≡ false) × IsPlain s

-- A field that a row can carry: without quotes, and without white space at its ends.
abbrev pub IsField : String → Type 0
IsField s = IsPlain s × (trim s ≡ s)

abbrev in_quotes : String → String → String
in_quotes field rest = String.◌∷◌ "\"" (String.◌++◌ field (String.◌∷◌ "\"" rest))

abbrev print_rest : List String → String
print_rest [] = String.[]
print_rest (field ∷ fields) = String.◌∷◌ "," (in_quotes field (print_rest fields))

-- The fields in quotes, with commas between them.
abbrev pub print_row : String → List String → String
print_row field fields = in_quotes field (print_rest fields)

snoc-append :
    (s : String) (c : Char) (t : String)
    → String.◌++◌ (String.◌++◌ s (String.◌∷◌ c String.[])) t ≡ String.◌++◌ s (String.◌∷◌ c t)
snoc-append s c t =
    append_assoc s (String.◌∷◌ c String.[]) t
    ∙ ap (String.◌++◌ s) (cons-append c String.[] t ∙ ap (String.◌∷◌ c) (nil-append t))

piece_of-plain : (c : Char) → eqb (code c) quote ≡ false → piece_of true c ≡ stays
unfolding piece_of
piece_of-plain c h = rw h (ground arith)

-- Within quotes the text of a field is read as it stands.
row_from-field :
    (current field rest : String)
    → IsPlain field
    → row_from current true (String.◌++◌ field rest)
      ≡ row_from (String.◌++◌ current field) true rest
unfolding row_from
row_from-field current String.[] rest plain = rw (nil-append rest, append-nil current)
row_from-field current (String.◌∷◌ c s) rest plain = rw (cons-append c s rest) (
    rw (piece_of-plain c plain.0, row_from)
      (row_from-field (String.◌++◌ current (String.◌∷◌ c String.[])) s rest plain.1
        ∙ rw (snoc-append current c s)))

row_from-quoted :
    (field rest : String)
    → IsPlain field
    → row_from String.[] false (in_quotes field rest) ≡ row_from field false rest
unfolding row_from piece_of
row_from-quoted field rest plain =
    row_from-field String.[] field (String.◌∷◌ "\"" rest) plain ∙ rw (nil-append field)

row_from-rest :
    (field : String) (fields : List String)
    → trim field ≡ field
    → All IsField fields
    → row_from field false (print_rest fields) ≡ field ∷ fields
unfolding row_from piece_of
row_from-rest field [] trimmed h = rw trimmed
row_from-rest field (next ∷ fields) trimmed h = rw trimmed (
    ap (◌∷◌ field)
      (row_from-quoted next (print_rest fields) h.0.0 ∙ row_from-rest next fields h.0.1 h.1))

-- Reading a printed row gives its fields back, where no field has a quote or white space at its ends;
-- commas and line breaks within a field are kept.
pub parse_row-print_row :
    (field : String) (fields : List String)
    → IsField field
    → All IsField fields
    → parse_row (print_row field fields) ≡ field ∷ fields
unfolding parse_row
parse_row-print_row field fields h hs =
    row_from-quoted field (print_rest fields) h.0 ∙ row_from-rest field fields h.1 hs
