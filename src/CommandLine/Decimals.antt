-- ===== src/CommandLine/Decimals.antt =====
-- Numbers in base ten, as they are written among the arguments of the command line, and as a reader
-- of digits reads them.
use opera.Prelude.{
  ℕ, zero, suc, ◌+◌, ◌-◌, ◌*◌, ◌/◌, ◌%◌, ◌<◌, ◌≡◌, [], ◌∷◌, Bool, true, false, ◌&&◌, ltb, leb,
  arith,
}
use opera.Prelude.Texts.{Text}

-- The digits of a number before a text, with the digits that may be left.
unfoldable pub digits : ℕ → ℕ → Text → Text
digits zero n out = out
digits (suc fuel) n out = elim (ltb n 10) [
  | true ↦ (48 + n) ∷ out
  | false ↦ digits fuel (n / 10) ((48 + n % 10) ∷ out)
]

unfoldable pub decimal : ℕ → Text
decimal n = digits (suc n) n []

unfoldable pub is_digit : ℕ → Bool
is_digit c = leb 48 c && leb c 57

unfoldable pub starts_with_digit : Text → Bool
starts_with_digit [] = false
starts_with_digit (c ∷ t) = is_digit c

-- The number that the digits at the front of a text go on with.
unfoldable pub scan : Text → ℕ → ℕ
scan [] n = n
scan (c ∷ t) n = elim (is_digit c) [ true ↦ scan t (n * 10 + (c - 48)) | false ↦ n ]

scan_digit : (d n : ℕ) (t : Text) → d < 10 → scan ((48 + d) ∷ t) n ≡ scan t (n * 10 + d)
unfolding scan is_digit
scan_digit d n t h = ground arith

scan-digits : (fuel n : ℕ) (out : Text) → n < fuel → scan (digits fuel n out) 0 ≡ scan out n
unfolding digits
scan-digits zero n out h = absurd (omega arith)
scan-digits (suc fuel) n out h = ground (
  arith,
  scan_digit n 0 out,
  scan_digit (n % 10) (n / 10) out,
  scan-digits fuel (n / 10) ((48 + n % 10) ∷ out),
)

starts_with_digit-digits :
    (fuel n : ℕ) (out : Text) → n < fuel → starts_with_digit (digits fuel n out) ≡ true
unfolding digits starts_with_digit is_digit
starts_with_digit-digits zero n out h = absurd (omega arith)
starts_with_digit-digits (suc fuel) n out h =
    ground (arith, starts_with_digit-digits fuel (n / 10) ((48 + n % 10) ∷ out))

-- A number is read back from its decimals.
pub scan-decimal : (n : ℕ) → scan (decimal n) 0 ≡ n
unfolding decimal scan
scan-decimal n = scan-digits (suc n) n [] (omega arith)

pub starts_with_digit-decimal : (n : ℕ) → starts_with_digit (decimal n) ≡ true
unfolding decimal
starts_with_digit-decimal n = starts_with_digit-digits (suc n) n [] (omega arith)
