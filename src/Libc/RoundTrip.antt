-- ===== src/Libc/RoundTrip.antt =====
-- `strtol` reads back what `%lu` prints, and a printed number has digits only.
use redis_virtual_file_syste.Common.{
  ℕ, zero, suc, ◌+◌, ◌/◌, ◌%◌, ◌≤◌, ◌<◌, ◌≡◌, ◌≢◌, ◌∙◌, sym, ap, refl, [], ◌∷◌, ◌++◌, ◌*◌, ◌-◌,
  Bytes, pos, arith, All,
}
use redis_virtual_file_syste.Libc.Decimal.{long_max, digits, decimal, read_digits, strtol}

abbrev pub IsDigit : ℕ → Type 0
IsDigit c = (b'0' ≤ c) × (c ≤ b'9')

read_digits-digits :
    (f n : ℕ) (out : Bytes) → n < f → read_digits 0 (digits f n out) ≡ read_digits n out
unfolding digits read_digits
read_digits-digits zero n out h = absurd (omega arith)
read_digits-digits (suc f) n out h =
    ground (arith, read_digits-digits f (n / 10) ((b'0' + n % 10) ∷ out))

digits-IsDigit : (f n : ℕ) (out : Bytes) → All IsDigit out → All IsDigit (digits f n out)
unfolding digits
digits-IsDigit zero n out h = h
digits-IsDigit (suc f) n out h = ground (arith, digits-IsDigit f (n / 10) ((b'0' + n % 10) ∷ out))

pub decimal-IsDigit : (n : ℕ) → All IsDigit (decimal n)
unfolding decimal
decimal-IsDigit n = digits-IsDigit (suc n) n [] tt

digits-ne-nil : (f n : ℕ) (out : Bytes) → out ≢ [] → digits f n out ≢ []
unfolding digits
digits-ne-nil zero n out h = h
digits-ne-nil (suc f) n out h = ground (arith, digits-ne-nil f (n / 10) ((b'0' + n % 10) ∷ out))

pub decimal-ne-nil : (n : ℕ) → decimal n ≢ []
unfolding decimal digits
decimal-ne-nil n = ground (arith, digits-ne-nil n (n / 10) ((b'0' + n % 10) ∷ []))

pub read_digits-decimal : (n : ℕ) → read_digits 0 (decimal n) ≡ n
unfolding decimal read_digits
read_digits-decimal n = read_digits-digits (suc n) n [] (omega arith)

-- On digits `strtol` is the saturated number.
strtol-read_digits :
    (s : Bytes)
    → s ≢ []
    → All IsDigit s
    → read_digits 0 s ≤ long_max
    → strtol s ≡ pos (read_digits 0 s)
unfolding strtol
strtol-read_digits [] h d le = absurd (h refl)
strtol-read_digits (c ∷ s) h d le = ground arith

-- Every id and size up to LONG_MAX is read back.
pub strtol-decimal : (n : ℕ) → n ≤ long_max → strtol (decimal n) ≡ pos n
strtol-decimal n h =
    strtol-read_digits (decimal n) (decimal-ne-nil n) (decimal-IsDigit n) (rw read_digits-decimal h)
    ∙ ap pos (read_digits-decimal n)

-- Reading stops at a quote behind the digits.
read_digits_quote :
    (n : ℕ) (s : Bytes) → All IsDigit s → read_digits n (s ++ (b'"' ∷ [])) ≡ read_digits n s
unfolding read_digits
read_digits_quote n [] all = refl
read_digits_quote n (c ∷ s) (digit, all) =
    ground (arith, read_digits_quote (n * 10 + (c - b'0')) s all)

strtol_quote : (s : Bytes) → s ≢ [] → All IsDigit s → strtol (s ++ (b'"' ∷ [])) ≡ strtol s
unfolding strtol
strtol_quote [] some_digit all = absurd (some_digit refl)
strtol_quote (c ∷ s) some_digit (digit, all) =
    ground (arith, read_digits_quote 0 (c ∷ s) (digit, all))

pub strtol-decimal_quote : (n : ℕ) → n ≤ long_max → strtol (decimal n ++ (b'"' ∷ [])) ≡ pos n
strtol-decimal_quote n h =
    strtol_quote (decimal n) (decimal-ne-nil n) (decimal-IsDigit n) ∙ strtol-decimal n h

pub decimal-injective : (m n : ℕ) → decimal m ≡ decimal n → m ≡ n
decimal-injective m n e = sym (read_digits-decimal m) ∙ ap (read_digits 0) e ∙ read_digits-decimal n
