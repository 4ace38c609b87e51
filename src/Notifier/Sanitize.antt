-- ===== src/Notifier/Sanitize.antt =====
-- `sanitizeText` of infrastructure/notifier/teams.adapter.ts: a text without tags, with its special characters
-- escaped, its long runs of line feeds cut, and at most so long.
pub mod Tags
use Prim.Native.Char.{Char, code}
use Prim.Native.String
use junando.Common.{
  ℕ, zero, suc, String, Bool, true, false, not, ◌&&◌, ◌≡◌, refl, leb, ltb, eqb, if◌then◌else◌,
}
use junando.Common.Text.{slice_to, text_length}
use junando.Common.Split.{includes_code}

-- Whether the text behind a character is inside of a tag: `<` opens one only where a `>` follows.
unfoldable pub opens : Bool → Char → String → Bool
opens true c s = not (eqb (code c) 62)
opens false c s = eqb (code c) 60 && includes_code 62 s

-- `s.replace(/<[^>]*>/g, '')`, from inside of a tag or from outside.
unfoldable pub strip_from : Bool → String → String
unfolding opens
strip_from inside String.[] = String.[]
strip_from inside (String.◌∷◌ c s) =
    let rest = strip_from (opens inside c s) s in
    if not inside && not (opens inside c s) then String.◌∷◌ c rest else rest

-- A backslash before each such character.
unfoldable pub escape_code : ℕ → String → String
escape_code k String.[] = String.[]
escape_code k (String.◌∷◌ c s) =
    let rest = String.◌∷◌ c (escape_code k s) in
    if eqb (code c) k then String.◌∷◌ "\\" rest else rest

unfoldable pub line_feeds : ℕ → String
line_feeds zero = String.[]
line_feeds (suc n) = String.◌∷◌ "\n" (line_feeds n)

-- What a run of line feeds is replaced by.
unfoldable pub collapsed_run : ℕ → String
unfolding line_feeds
collapsed_run n = if leb 6 n then "\n\n\n\n\n…" else line_feeds n

-- `s.replace(/(\n){6,}/g, '\n\n\n\n\n…')`, behind a run of line feeds.
unfoldable pub collapse_from : ℕ → String → String
unfolding collapsed_run
collapse_from run String.[] = collapsed_run run
collapse_from run (String.◌∷◌ c s) =
    let feeds = eqb (code c) 10 in
    let rest = collapse_from (if feeds then suc run else 0) s in
    if feeds then rest else String.◌++◌ (collapsed_run run) (String.◌∷◌ c rest)

unfoldable pub truncate : ℕ → String → String
truncate max_length s =
    if ltb max_length (text_length s) then String.◌++◌ (slice_to max_length s) "…" else s

unfoldable pub sanitize_text : String → ℕ → String
unfolding strip_from escape_code collapse_from truncate
sanitize_text s max_length =
    truncate max_length
      (collapse_from 0 (escape_code 95 (escape_code 42 (escape_code 92 (strip_from false s)))))

sanitize_runs : sanitize_text "a<b>*c\n\n\n\n\n\n<" 100 ≡ "a\\*c\n\n\n\n\n…<"
unfolding sanitize_text includes_code
sanitize_runs = refl
