-- ===== src/Worker/Fields/Hash.antt =====
-- What the fingerprint of a CSV row depends on.
use Prim.Native.Char.{code}
use Prim.Native.String
use junando.Common.{ℕ, ◌+◌, String}

-- The sum of a text's codes.
abbrev pub total_code : String → ℕ
total_code String.[] = 0
total_code (String.◌∷◌ c s) = code c + total_code s
