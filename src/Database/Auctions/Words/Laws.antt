-- ===== src/Database/Auctions/Words/Laws.antt =====
-- Words that are joined by spaces are read back from the file that they are written to.
use proj_rc.Base.{
  ℕ, ◌<◌, false, ◌≡◌, ◌∙◌, refl, sym, length-append, ap, arith, some, List, [], ◌∷◌, ◌++◌, ◌==◌,
  append-nil, All, All-append, Bytes, length, codes,
}
use proj_rc.Shared.Chars.{isspace}
use proj_rc.Database.Files.Laws.{fgets-line}
use proj_rc.Database.Auctions.Words.{c_str, add_word, split, words, line_words}

-- A byte that is neither white space nor the end of a C string.
abbrev pub IsPlainByte : ℕ → Type 0
IsPlainByte c = (isspace c ≡ false) × ((c == 0) ≡ false)

abbrev pub IsPlain : Bytes → Type 0
IsPlain w = (0 < length w) × All IsPlainByte w

-- The words with one space between two of them.
unfoldable pub joined : List Bytes → Bytes
joined [] = []
joined (w ∷ []) = w
joined (w ∷ v ∷ ws) = w ++ (codes " " ++ joined (v ∷ ws))

split-append : (w s : Bytes) → All IsPlainByte w → split (w ++ s) ≡ (w ++ (split s).0, (split s).1)
unfolding split
split-append [] s h = refl
split-append (c ∷ w) s ((plain, nonzero), h) = rw (split-append w s h) (rw plain refl)

words-word : (w : Bytes) → IsPlain w → words w ≡ w ∷ []
unfolding words split
words-word [] (l, h) = absurd (omega arith)
words-word (c ∷ w) (l, h) =
    let one : split (c ∷ w) ≡ (c ∷ w, []) =
      ap split (sym (append-nil (c ∷ w)))
      ∙ (split-append (c ∷ w) [] h ∙ ap (λ q. (q, [])) (append-nil (c ∷ w))) in
    ap (λ q. add_word q.0 q.1) one

words-append : (w s : Bytes) → IsPlain w → words (w ++ (codes " " ++ s)) ≡ w ∷ words s
unfolding words split isspace
words-append [] s (l, h) = absurd (omega arith)
words-append (c ∷ w) s (l, h) =
    let front : split ((c ∷ w) ++ (codes " " ++ s)) ≡ (c ∷ w, words s) =
      split-append (c ∷ w) (codes " " ++ s) h ∙ ap (λ q. (q, words s)) (append-nil (c ∷ w)) in
    ap (λ q. add_word q.0 q.1) front

words-joined : (ws : List Bytes) → All IsPlain ws → words (joined ws) ≡ ws
unfolding joined words split
words-joined [] h = refl
words-joined (w ∷ []) (h, hs) = words-word w h
words-joined (w ∷ v ∷ ws) (h, hs) =
    words-append w (joined (v ∷ ws)) h ∙ ap (λ q. w ∷ q) (words-joined (v ∷ ws) hs)

pub All-map : {P Q : ℕ → Type 0} (f : (c : ℕ) → P c → Q c) (s : Bytes) → All P s → All Q s
All-map f [] h = tt
All-map f (c ∷ s) (k, h) = (f c k, All-map f s h)

-- A byte of a line: neither its end nor the end of a C string.
abbrev IsLineByte : ℕ → Type 0
IsLineByte c = ((c == 10) ≡ false) × ((c == 0) ≡ false)

plain-IsLineByte : (c : ℕ) → IsPlainByte c → IsLineByte c
unfolding isspace
plain-IsLineByte c (plain, nonzero) = (ground (arith, plain), nonzero)

joined-IsLineByte : (ws : List Bytes) → All IsPlain ws → All IsLineByte (joined ws)
unfolding joined
joined-IsLineByte [] h = tt
joined-IsLineByte (w ∷ []) ((l, h), hs) = All-map plain-IsLineByte w h
joined-IsLineByte (w ∷ v ∷ ws) ((l, h), hs) =
    All-append IsLineByte w _ (All-map plain-IsLineByte w h)
      ((refl, refl), joined-IsLineByte (v ∷ ws) hs)

pub c_str-line : (s : Bytes) → All (λ c. (c == 0) ≡ false) s → c_str s ≡ s
unfolding c_str
c_str-line [] h = refl
c_str-line (c ∷ s) (k, h) = rw k (ap (λ t. c ∷ t) (c_str-line s h))

joined-nonempty : (w : Bytes) (ws : List Bytes) → IsPlain w → 0 < length (joined (w ∷ ws))
unfolding joined
joined-nonempty w [] (l, h) = l
joined-nonempty w (v ∷ ws) (l, h) = omega (arith, length-append w (codes " " ++ joined (v ∷ ws)))

pub c_str-joined : (ws : List Bytes) → All IsPlain ws → c_str (joined ws) ≡ joined ws
c_str-joined ws h = c_str-line _ (All-map (λ c k. k.1) _ (joined-IsLineByte ws h))

-- What `fprintf` writes of plain words is read back word by word.
pub line_words-joined :
    (n : ℕ) (w : Bytes) (ws : List Bytes)
    → All IsPlain (w ∷ ws)
    → length (joined (w ∷ ws)) < n
    → line_words n (c_str (joined (w ∷ ws))) ≡ some (w ∷ ws)
unfolding line_words
line_words-joined n w ws h fits =
    let bytes = joined-IsLineByte (w ∷ ws) h in
    let line =
      fgets-line n (joined (w ∷ ws)) (joined-nonempty w ws h.0) fits
        (All-map (λ c k. k.0) _ bytes) in
    rw (c_str-joined (w ∷ ws) h, line_words, line, c_str-joined (w ∷ ws) h)
      (ap some (words-joined (w ∷ ws) h))
