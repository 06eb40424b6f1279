-- ===== src/Prelude/Search.antt =====
-- Texts as code points, and the search for one text in another without regard to ASCII case.
use Prim.Native.Nat.{ℕ, ◌+◌}
use Prim.Native.Char.{code}
use Prim.Native.String.{String}
use mathlib.Core.Bool.{Bool, true, false, ◌&&◌, ◌||◌}
use mathlib.Core.List.{List, [], ◌∷◌}
use contextrail.Prelude.Tests.{leb, ◌==◌, if◌then◌else◌}

-- the code points of a text
abbrev pub codes : String → List ℕ
codes String.[] = []
codes (String.◌∷◌ c s) = code c ∷ codes s

abbrev ascii_lower : ℕ → ℕ
ascii_lower c = if leb b'A' c && leb c b'Z' then c + 32 else c

abbrev is_prefix : List ℕ → List ℕ → Bool
is_prefix [] s = true
is_prefix (c ∷ p) [] = false
is_prefix (c ∷ p) (d ∷ s) = c == ascii_lower d && is_prefix p s

abbrev occurs : List ℕ → List ℕ → Bool
occurs p [] = is_prefix p []
occurs p (d ∷ s) = is_prefix p (d ∷ s) || occurs p s

-- Whether a word in lower case occurs in a text, in either case of its letters.
abbrev pub mentions : String → String → Bool
mentions w s = occurs (codes w) (codes s)
