-- ===== src/Shared/Decimal/Laws.antt =====
-- Printed numbers: their digits, their length and the value that reading them gives.
use proj_rc.Base.{
  ℕ, zero, suc, ◌+◌, ◌-◌, ◌*◌, ◌/◌, ◌%◌, ◌^◌, ◌≤◌, ◌<◌, ◌≡◌, refl, [], ◌∷◌, ◌++◌, arith, ltb,
  length, replicate, length-append, length-replicate, All, All-append, All-replicate, Bytes,
  Bool-cases, inl, inr, ltb→lt, lt→ltb, ap, ◌∙◌,
}
use mathlib.Core.Path.{ap₂}
use native.Mathlib.Nat.{mul-le-mul_right}
use proj_rc.Shared.Outcome.{ok}
use proj_rc.Shared.Chars.{IsDigit}
use proj_rc.Shared.Decimal.{
  digits, to_string, pad, sprintf_d, value_from, skip_spaces, digit_prefix, stol, stol_u32, pos,
  negsuc, stoi, magnitude,
}

abbrev pub ten_pow : ℕ → ℕ
ten_pow zero = 1
ten_pow (suc k) = 10 * ten_pow k

pub value_from-digits :
    (f n : ℕ) (out : Bytes) → n < f → value_from 0 (digits f n out) ≡ value_from n out
unfolding digits
value_from-digits zero n out h = absurd (omega arith)
value_from-digits (suc f) n out h =
    ground (arith, value_from-digits f (n / 10) ((b'0' + n % 10) ∷ out))

pub digits-IsDigit :
    (f n : ℕ) (out : Bytes) → n < f → All IsDigit out → All IsDigit (digits f n out)
unfolding digits
digits-IsDigit zero n out h d = absurd (omega arith)
digits-IsDigit (suc f) n out h d = elim (Bool-cases (ltb n 10)) [
  | inl e ↦ rw e (ground arith, d)
  | inr e ↦ rw e (digits-IsDigit f (n / 10) ((b'0' + n % 10) ∷ out) (ground arith) (omega arith, d))
]

pub length-digits-le :
    (f n k : ℕ) (out : Bytes)
    → n < f
    → n < ten_pow (suc k)
    → length (digits f n out) ≤ suc k + length out
unfolding digits
length-digits-le zero n k out h b = absurd (omega arith)
length-digits-le (suc f) n zero out h b = ground arith
length-digits-le (suc f) n (suc k) out h b =
    ground (arith, length-digits-le f (n / 10) k ((b'0' + n % 10) ∷ out))

ten_pow_pos : (k : ℕ) → 0 < ten_pow k
ten_pow_pos zero = omega arith
ten_pow_pos (suc k) = omega (arith, ten_pow_pos k)

pub length-digits-ge :
    (f n k : ℕ) (out : Bytes) → n < f → ten_pow k ≤ n → suc k + length out ≤ length (digits f n out)
unfolding digits
length-digits-ge zero n k out h b = absurd (omega arith)
length-digits-ge (suc f) n zero out h b = elim (Bool-cases (ltb n 10)) [
  | inl e ↦ rw e (omega arith)
  | inr e ↦ rw e (
      omega (
        arith,
        length-digits-ge f (n / 10) zero ((b'0' + n % 10) ∷ out) (ground arith) (ground arith),
      ))
]
length-digits-ge (suc f) n (suc k) out h b = elim (Bool-cases (ltb n 10)) [
  | inl e ↦ absurd (omega (arith, ltb→lt n 10 e, ten_pow_pos k))
  | inr e ↦ rw e (
      omega
        (arith, length-digits-ge f (n / 10) k ((b'0' + n % 10) ∷ out) (ground arith) (omega arith)))
]

value_from-zeros : (n : ℕ) (s : Bytes) → value_from 0 (replicate n b'0' ++ s) ≡ value_from 0 s
value_from-zeros zero s = refl
value_from-zeros (suc n) s = value_from-zeros n s

pub value_from-pad : (w : ℕ) (s : Bytes) → value_from 0 (pad w s) ≡ value_from 0 s
unfolding pad
value_from-pad w s = value_from-zeros (w - length s) s

pub length-pad : (w : ℕ) (s : Bytes) → length s ≤ w → length (pad w s) ≡ w
unfolding pad
length-pad w s h = omega (
  arith,
  length-append (replicate (w - length s) b'0') s,
  length-replicate {A = ℕ} (w - length s) b'0',
)

pub pad-IsDigit : (w : ℕ) (s : Bytes) → All IsDigit s → All IsDigit (pad w s)
unfolding pad
pad-IsDigit w s h =
    All-append IsDigit (replicate (w - length s) b'0') s
      (All-replicate IsDigit (w - length s) b'0' (omega arith)) h

pub value_from-to_string : (n : ℕ) → value_from 0 (to_string n) ≡ n
unfolding to_string
value_from-to_string n = value_from-digits (suc n) n [] (omega arith)

pub to_string-IsDigit : (n : ℕ) → All IsDigit (to_string n)
unfolding to_string
to_string-IsDigit n = digits-IsDigit (suc n) n [] (omega arith) tt

pub length-to_string-le : (n k : ℕ) → n < ten_pow (suc k) → length (to_string n) ≤ suc k
unfolding to_string
length-to_string-le n k h = omega (arith, length-digits-le (suc n) n k [] (omega arith) h)

pub length-to_string-ge : (n k : ℕ) → ten_pow k ≤ n → suc k ≤ length (to_string n)
unfolding to_string
length-to_string-ge n k h = omega (arith, length-digits-ge (suc n) n k [] (omega arith) h)

pub length-to_string_pos : (n : ℕ) → 1 ≤ length (to_string n)
length-to_string_pos zero = unfold to_string in omega arith
length-to_string_pos (suc n) = length-to_string-ge (suc n) 0 (omega arith)

-- Below 2^31 `%0Nd` prints the number, padded with zeros up to the width.
pub sprintf_d-eq-pad : (w n : ℕ) → n < 2 ^ 31 → sprintf_d w n ≡ pad w (to_string n)
unfolding sprintf_d
sprintf_d-eq-pad w n h = rw (lt→ltb n (2 ^ 31) h)

-- The value of `k` digits is below 10^k.
pub value_from-lt :
    (n : ℕ) (s : Bytes) → All IsDigit s → value_from n s < (n + 1) * ten_pow (length s)
value_from-lt n [] h = omega arith
value_from-lt n (c ∷ s) (hc, hs) =
    let d = n * 10 + (c - b'0') in
    let ih = value_from-lt d s hs in
    let step : (d + 1) * ten_pow (length s) ≤ (n + 1) * 10 * ten_pow (length s) =
      mul-le-mul_right (ten_pow (length s)) (omega arith) in
    omega (arith, ih, step)

-- Digit strings of one length with one value are the same string.
pub value_from-injective :
    (m n : ℕ) (s t : Bytes)
    → length s ≡ length t
    → All IsDigit s
    → All IsDigit t
    → value_from m s ≡ value_from n t
    → (m ≡ n) × (s ≡ t)
value_from-injective m n [] [] l hs ht e = (e, refl)
value_from-injective m n [] (d ∷ t) l hs ht e = absurd (omega arith)
value_from-injective m n (c ∷ s) [] l hs ht e = absurd (omega arith)
value_from-injective m n (c ∷ s) (d ∷ t) l (hc, hs) (hd, ht) e =
    let (heads, tails) =
      value_from-injective (m * 10 + (c - b'0')) (n * 10 + (d - b'0')) s t (omega arith) hs ht e in
    let same : c ≡ d = omega arith in (omega arith, ap₂ (λ x xs. x ∷ xs) same tails)

digit_prefix-digits : (s : Bytes) → All IsDigit s → digit_prefix s ≡ s
unfolding digit_prefix
digit_prefix-digits [] h = refl
digit_prefix-digits (c ∷ s) (hc, hs) = ground (arith, digit_prefix-digits s hs)

pub skip_spaces-digits : (c : ℕ) (s : Bytes) → IsDigit c → skip_spaces (c ∷ s) ≡ c ∷ s
unfolding skip_spaces
skip_spaces-digits c s h = ground arith

-- `std::stol` reads a string of digits that fits a `long` as the number that it spells.
pub stol-digits :
    (s : Bytes)
    → 1 ≤ length s
    → All IsDigit s
    → value_from 0 s < 2 ^ 63
    → stol s ≡ ok (pos (value_from 0 s))
unfolding stol
stol-digits [] l h b = absurd (omega arith)
stol-digits (c ∷ s) l (hc, hs) b =
    rw (skip_spaces-digits c s hc) (ground (arith, digit_prefix-digits (c ∷ s) (hc, hs)))

pub stol_u32-digits :
    (s : Bytes)
    → 1 ≤ length s
    → All IsDigit s
    → value_from 0 s < 2 ^ 32
    → stol_u32 s ≡ ok (value_from 0 s)
unfolding stol_u32
stol_u32-digits s l h b = rw (stol-digits s l h (omega arith)) (ap ok (omega arith))

pub stol_u32-to_string : (n : ℕ) → n < 2 ^ 32 → stol_u32 (to_string n) ≡ ok n
stol_u32-to_string n h =
    stol_u32-digits (to_string n) (length-to_string_pos n) (to_string-IsDigit n)
      (omega (arith, value_from-to_string n))
    ∙ ap ok (value_from-to_string n)

pub stoi-digits :
    (s : Bytes)
    → 1 ≤ length s
    → All IsDigit s
    → value_from 0 s < 2 ^ 31
    → stoi s ≡ ok (pos (value_from 0 s))
unfolding stoi
stoi-digits [] l h b = absurd (omega arith)
stoi-digits (c ∷ s) l (hc, hs) b =
    rw (skip_spaces-digits c s hc) (ground (arith, digit_prefix-digits (c ∷ s) (hc, hs)))

magnitude-digits :
    (s : Bytes) → 1 ≤ length s → All IsDigit s → magnitude (digit_prefix s) ≡ ok (value_from 0 s)
unfolding magnitude
magnitude-digits [] l h = absurd (omega arith)
magnitude-digits (c ∷ s) l h = rw (digit_prefix-digits (c ∷ s) h)

-- A minus sign in front of a positive decimal number gives the number of that size below zero.
pub stol-minus : (n : ℕ) → 0 < n → n < 2 ^ 32 → stol (b'-' ∷ to_string n) ≡ ok (negsuc (n - 1))
unfolding stol
stol-minus n p h = ground (
  arith,
  magnitude-digits (to_string n) (length-to_string_pos n) (to_string-IsDigit n),
  value_from-to_string n,
)
