-- ===== src/Shared/Chars.antt =====
-- The character classes of <cctype> in the "C" locale, on byte values.
use proj_rc.Base.{ℕ, ◌≤◌, Bool, true, ◌≡◌, refl, ◌&&◌, ◌||◌, [], ◌∷◌, arith, leb, ◌==◌, Bytes, All}

unfoldable pub isdigit : ℕ → Bool
isdigit c = leb b'0' c && leb c b'9'

unfoldable pub isalnum : ℕ → Bool
unfolding isdigit
isalnum c = isdigit c || (leb b'a' c && leb c b'z') || (leb b'A' c && leb c b'Z')

unfoldable pub isprint : ℕ → Bool
isprint c = leb 32 c && leb c 126

unfoldable pub isspace : ℕ → Bool
isspace c = c == 32 || (leb 9 c && leb c 13)

-- `for (i = 0; i < s.size(); i++) if (!test(s[i])) return -1;`
abbrev pub all_bytes : (ℕ → Bool) → Bytes → Bool
all_bytes test [] = true
all_bytes test (c ∷ s) = test c && all_bytes test s

abbrev pub IsDigit : ℕ → Type 0
IsDigit c = (b'0' ≤ c) × (c ≤ b'9')

pub all_bytes→All :
    (test : ℕ → Bool) (s : Bytes) → all_bytes test s ≡ true → All (λ c. test c ≡ true) s
all_bytes→All test [] h = tt
all_bytes→All test (c ∷ s) h = (ground arith, all_bytes→All test s (ground arith))

pub All→all_bytes :
    (test : ℕ → Bool) (s : Bytes) → All (λ c. test c ≡ true) s → all_bytes test s ≡ true
All→all_bytes test [] h = refl
All→all_bytes test (c ∷ s) (hc, hs) = ground (arith, All→all_bytes test s hs)

pub digits→All : (s : Bytes) → all_bytes isdigit s ≡ true → All IsDigit s
unfolding isdigit
digits→All [] h = tt
digits→All (c ∷ s) h = (ground arith, digits→All s (ground arith))

pub All→digits : (s : Bytes) → All IsDigit s → all_bytes isdigit s ≡ true
unfolding isdigit
All→digits [] h = refl
All→digits (c ∷ s) (hc, hs) = ground (arith, All→digits s hs)
