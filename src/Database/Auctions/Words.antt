-- ===== src/Database/Auctions/Words.antt =====
-- Text in files: `fprintf("%s")`, and `fgets` with `std::stringstream::operator>>`.
pub mod Laws
use proj_rc.Base.{ℕ, Option, none, some, List, [], ◌∷◌, ◌==◌, if◌then◌else◌, Bytes}
use proj_rc.Shared.Chars.{isspace}
use proj_rc.Database.Files.{fgets}

-- A `std::string` as a C string: up to its first zero byte.
unfoldable pub c_str : Bytes → Bytes
c_str [] = []
c_str (c ∷ s) = let rest = c_str s in if c == 0 then [] else c ∷ rest

abbrev add_word : Bytes → List Bytes → List Bytes
add_word [] ws = ws
add_word (c ∷ w) ws = (c ∷ w) ∷ ws

-- A byte in front of a text that has been split: it begins a word, or stands in front of the first
-- word's bytes. The first component is the word that the text begins with.
abbrev put_byte : ℕ → Bytes × List Bytes → Bytes × List Bytes
put_byte c (w, ws) = if isspace c then ([], add_word w ws) else (c ∷ w, ws)

unfoldable pub split : Bytes → Bytes × List Bytes
unfolding isspace
split [] = ([], [])
split (c ∷ s) = put_byte c (split s)

-- The words that `while (ss >> cont)` reads.
unfoldable pub words : Bytes → List Bytes
unfolding split
words s = let (w, ws) = split s in add_word w ws

-- The words of the first line of a file, of which `fgets(content, n, fp)` reads n - 1 bytes.
unfoldable pub line_words : ℕ → Bytes → Option (List Bytes)
unfolding words c_str
line_words n content = elim (fgets n content) [
  | none ↦ none
  | some line ↦ some (words (c_str line))
]
