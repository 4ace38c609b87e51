-- ===== src/Notifier/Sanitize/Tags.antt =====
-- The tags and the length of what `sanitizeText` returns.
use Prim.Native.Char.{code}
use Prim.Native.String
use text.Mathlib.TextLemmas.{nil-append, cons-append}
use junando.Common.{
  ℕ, zero, suc, ◌+◌, ◌≤◌, String, Bool, true, false, ◌&&◌, ◌||◌, ◌≡◌, refl, arith, leb, ltb, eqb,
  Bool-cases, inl, inr,
}
use junando.Common.Text.{slice_to, text_length, text_length-slice_to-le, text_length-append}
use junando.Common.Split.{includes_code}
use junando.Notifier.Sanitize.{
  opens, strip_from, escape_code, line_feeds, collapsed_run, collapse_from, truncate, sanitize_text,
}

-- Some `<` has a `>` behind it.
abbrev pub has_tag : String → Bool
has_tag String.[] = false
has_tag (String.◌∷◌ c s) = (eqb (code c) 60 && includes_code 62 s) || has_tag s

includes_code-strip_from :
    (inside : Bool) (s : String)
    → includes_code 62 (strip_from inside s) ≡ true
    → includes_code 62 s ≡ true
unfolding includes_code strip_from
includes_code-strip_from inside String.[] h = h
includes_code-strip_from inside (String.◌∷◌ c s) h =
    ground (arith, includes_code-strip_from (opens inside c s) s)

has_tag-strip_from : (inside : Bool) (s : String) → has_tag (strip_from inside s) ≡ false
unfolding strip_from opens
has_tag-strip_from inside String.[] = refl
has_tag-strip_from true (String.◌∷◌ c s) = has_tag-strip_from (opens true c s) s
has_tag-strip_from false (String.◌∷◌ c s) =
    ground
      (arith, has_tag-strip_from (opens false c s) s, includes_code-strip_from (opens false c s) s)

includes_code-escape_code :
    (k : ℕ) (s : String) → includes_code 62 (escape_code k s) ≡ includes_code 62 s
unfolding includes_code escape_code
includes_code-escape_code k String.[] = refl
includes_code-escape_code k (String.◌∷◌ c s) = ground (arith, includes_code-escape_code k s)

has_tag-escape_code : (k : ℕ) (s : String) → has_tag (escape_code k s) ≡ has_tag s
unfolding escape_code
has_tag-escape_code k String.[] = refl
has_tag-escape_code k (String.◌∷◌ c s) =
    ground (arith, has_tag-escape_code k s, includes_code-escape_code k s)

includes_code-append :
    (k : ℕ) (s t : String)
    → includes_code k (String.◌++◌ s t) ≡ (includes_code k s || includes_code k t)
unfolding includes_code
includes_code-append k String.[] t = rw nil-append refl
includes_code-append k (String.◌∷◌ c s) t =
    rw cons-append (ground (arith, includes_code-append k s t))

-- A text without angle brackets in front adds no tag.
abbrev has_bracket : String → Bool
has_bracket String.[] = false
has_bracket (String.◌∷◌ c s) = (eqb (code c) 60 || eqb (code c) 62) || has_bracket s

has_tag-append : (s t : String) → has_bracket s ≡ false → has_tag (String.◌++◌ s t) ≡ has_tag t
has_tag-append String.[] t h = rw nil-append refl
has_tag-append (String.◌∷◌ c s) t h = rw cons-append (ground (arith, has_tag-append s t))

includes_code-bracket : (s : String) → has_bracket s ≡ false → includes_code 62 s ≡ false
unfolding includes_code
includes_code-bracket String.[] h = refl
includes_code-bracket (String.◌∷◌ c s) h = ground (arith, includes_code-bracket s)

has_tag-free : (s : String) → has_bracket s ≡ false → has_tag s ≡ false
has_tag-free String.[] h = refl
has_tag-free (String.◌∷◌ c s) h = ground (arith, has_tag-free s)

has_bracket-line_feeds : (n : ℕ) → has_bracket (line_feeds n) ≡ false
unfolding line_feeds
has_bracket-line_feeds zero = refl
has_bracket-line_feeds (suc n) = has_bracket-line_feeds n

has_bracket-collapsed_run : (n : ℕ) → has_bracket (collapsed_run n) ≡ false
unfolding collapsed_run
has_bracket-collapsed_run n = elim (Bool-cases (leb 6 n)) [
  | inl long ↦ rw long refl
  | inr short ↦ rw short (has_bracket-line_feeds n)
]

includes_code-collapse_from :
    (run : ℕ) (s : String) → includes_code 62 (collapse_from run s) ≡ includes_code 62 s
unfolding collapse_from includes_code
includes_code-collapse_from run String.[] =
    includes_code-bracket (collapsed_run run) (has_bracket-collapsed_run run)
includes_code-collapse_from run (String.◌∷◌ c s) = elim (Bool-cases (eqb (code c) 10)) [
  | inl feed ↦ rw feed (ground (arith, includes_code-collapse_from (suc run) s))
  | inr other ↦
      rw
        (
          other,
          includes_code-append,
          includes_code-bracket (collapsed_run run) (has_bracket-collapsed_run run),
          includes_code-collapse_from 0 s,
        )
        refl
]

has_tag-collapse_from : (run : ℕ) (s : String) → has_tag (collapse_from run s) ≡ has_tag s
unfolding collapse_from
has_tag-collapse_from run String.[] =
    has_tag-free (collapsed_run run) (has_bracket-collapsed_run run)
has_tag-collapse_from run (String.◌∷◌ c s) = elim (Bool-cases (eqb (code c) 10)) [
  | inl feed ↦ rw feed (ground (arith, has_tag-collapse_from (suc run) s))
  | inr other ↦
      rw
        (
          other,
          has_tag-append (collapsed_run run) _ (has_bracket-collapsed_run run),
          includes_code-collapse_from 0 s,
          has_tag-collapse_from 0 s,
        )
        refl
]

includes_code-slice_to :
    (n : ℕ) (s : String) → includes_code 62 (slice_to n s) ≡ true → includes_code 62 s ≡ true
unfolding includes_code slice_to
includes_code-slice_to zero s h = absurd (cc h)
includes_code-slice_to (suc n) String.[] h = h
includes_code-slice_to (suc n) (String.◌∷◌ c s) h = ground (arith, includes_code-slice_to n s)

has_tag-slice_to : (n : ℕ) (s : String) → has_tag s ≡ false → has_tag (slice_to n s) ≡ false
unfolding slice_to
has_tag-slice_to zero s h = refl
has_tag-slice_to (suc n) String.[] h = refl
has_tag-slice_to (suc n) (String.◌∷◌ c s) h =
    ground (arith, has_tag-slice_to n s, includes_code-slice_to n s)

-- A text with no bracket behind adds no tag.
has_tag-behind : (s : String) → has_tag s ≡ false → has_tag (String.◌++◌ s "…") ≡ false
unfolding includes_code
has_tag-behind String.[] h = refl
has_tag-behind (String.◌∷◌ c s) h =
    rw (cons-append, includes_code-append) (ground (arith, has_tag-behind s))

text_length-truncate-le : (n : ℕ) (s : String) → text_length (truncate n s) ≤ n + 1
unfolding truncate
text_length-truncate-le n s = elim (Bool-cases (ltb n (text_length s))) [
  | inl long ↦ rw (long, text_length-append) (omega (arith, text_length-slice_to-le n s))
  | inr short ↦ rw short (ground arith)
]

has_tag-truncate : (n : ℕ) (s : String) → has_tag s ≡ false → has_tag (truncate n s) ≡ false
unfolding truncate
has_tag-truncate n s h = elim (Bool-cases (ltb n (text_length s))) [
  | inl long ↦ rw long (has_tag-behind (slice_to n s) (has_tag-slice_to n s h))
  | inr short ↦ rw short h
]

-- What `sanitizeText` returns has at most `max_length` characters and the mark of a cut text, and no `<` in
-- it has a `>` behind it: it holds no tag.
pub sanitize_text-bounds :
    (s : String) (max_length : ℕ)
    → (text_length (sanitize_text s max_length) ≤ max_length + 1)
      × (has_tag (sanitize_text s max_length) ≡ false)
unfolding sanitize_text
sanitize_text-bounds s max_length = (
  text_length-truncate-le max_length _,
  has_tag-truncate max_length _ (
      rw (has_tag-collapse_from, has_tag-escape_code, has_tag-escape_code, has_tag-escape_code)
        (has_tag-strip_from false s)),
)
