-- ===== src/Libc/Decimal.antt =====
-- `%lu` and `%ld` of formatted output, and `strtol` with base 10.
use redis_virtual_file_syste.Common.{
  ℕ, zero, suc, ◌+◌, ◌-◌, ◌*◌, ◌/◌, ◌%◌, ◌^◌, ◌≡◌, refl, Bool, ◌&&◌, ◌||◌, [], ◌∷◌, Bytes, codes,
  ltb, leb, ◌==◌, if◌then◌else◌, ℤ, pos, negsuc,
}

abbrev pub long_max : ℕ
long_max = 2 ^ 63 - 1

abbrev pub ulong_mod : ℕ
ulong_mod = 2 ^ 64

-- The digits of `n` in front of `out`, with one unit of fuel for each digit.
unfoldable pub digits : ℕ → ℕ → Bytes → Bytes
digits zero n out = out
digits (suc f) n out =
    let rest = digits f (n / 10) ((b'0' + n % 10) ∷ out) in
    if ltb n 10 then (b'0' + n % 10) ∷ out else rest

unfoldable pub decimal : ℕ → Bytes
unfolding digits
decimal n = digits (suc n) n []

-- `%lu` given a `long`: a negative number is taken modulo 2 ^ 64.
unfoldable pub format_lu : ℤ → Bytes
format_lu (pos n) = decimal n
format_lu (negsuc n) = decimal (ulong_mod - 1 - n)

-- `%ld`
unfoldable pub format_ld : ℤ → Bytes
format_ld (pos n) = decimal n
format_ld (negsuc n) = b'-' ∷ decimal (n + 1)

abbrev pub is_digit : ℕ → Bool
is_digit c = leb b'0' c && leb c b'9'

-- The number that the leading digits spell behind `n`.
unfoldable pub read_digits : ℕ → Bytes → ℕ
read_digits n [] = n
read_digits n (c ∷ s) =
    let rest = read_digits (n * 10 + (c - b'0')) s in if is_digit c then rest else n

abbrev is_space : ℕ → Bool
is_space c = c == 32 || leb 9 c && leb c 13

skip_spaces : Bytes → Bytes
skip_spaces [] = []
skip_spaces (c ∷ s) = let rest = skip_spaces s in if is_space c then rest else c ∷ s

-- Out of range, `strtol` returns the nearest `long`.
saturate : ℕ → ℤ
saturate n = if leb n long_max then pos n else pos long_max

saturate_negative : ℕ → ℤ
saturate_negative zero = pos 0
saturate_negative (suc n) = if leb n long_max then negsuc n else negsuc long_max

signed : Bytes → ℤ
signed [] = pos 0
signed (c ∷ s) =
    if c == b'-'
    then saturate_negative (read_digits 0 s)
    else saturate (read_digits 0 (if c == b'+' then s else c ∷ s))

unfoldable pub strtol : Bytes → ℤ
unfolding read_digits skip_spaces saturate saturate_negative signed
strtol s = signed (skip_spaces s)

strtol_test : strtol (codes " -12x") ≡ negsuc 11
unfolding strtol
strtol_test = refl

format_test : format_lu (negsuc 0) ≡ codes "18446744073709551615"
unfolding format_lu decimal
format_test = refl
