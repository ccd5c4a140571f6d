-- ===== src/Base/Decimal.antt =====
-- The decimal numbers that `%d` prints and `atoi` reads.
use ketamarouter.Base.{
  ℕ, zero, suc, ◌+◌, ◌-◌, ◌*◌, ◌/◌, ◌%◌, ◌^◌, ◌≤◌, ◌<◌, ◌≡◌, refl, Bool, ◌&&◌, ◌||◌, [], ◌∷◌, arith,
  ltb, leb, ◌==◌, if◌then◌else◌, Bytes, codes, All, u32,
}
use ketamarouter.Base.Int.{ℤ, pos, negsuc}

-- Each round writes the last digit before those written so far.
unfoldable pub print_digits : ℕ → ℕ → Bytes → Bytes
print_digits zero n out = out
print_digits (suc f) n out =
    let rest = print_digits f (n / 10) ((b'0' + n % 10) ∷ out) in if n == 0 then out else rest

-- `n` rounds are more than the digits of `n`.
unfoldable pub print_nat : ℕ → Bytes
unfolding print_digits
print_nat n = if n == 0 then b'0' ∷ [] else print_digits n n []

unfoldable pub print_int : ℤ → Bytes
unfolding print_nat
print_int (pos n) = print_nat n
print_int (negsuc n) = b'-' ∷ print_nat (suc n)

abbrev pub is_digit : ℕ → Bool
is_digit c = leb b'0' c && leb c b'9'

-- The digits up to the first other byte.
unfoldable pub scan_digits : ℕ → Bytes → ℕ
scan_digits acc [] = acc
scan_digits acc (c ∷ s) =
    let rest = scan_digits (acc * 10 + (c - b'0')) s in if is_digit c then rest else acc

abbrev is_space : ℕ → Bool
is_space c = c == b' ' || (leb 9 c && leb c 13)

unfoldable pub skip_space : Bytes → Bytes
skip_space [] = []
skip_space (c ∷ s) = if is_space c then skip_space s else c ∷ s

abbrev clamp : ℕ → ℕ → ℕ
clamp n m = if ltb m n then m else n

-- `(uint32_t) atoi(s)`: the digits behind white space and a sign. Where the number is no `long` it
-- is the largest one, as `strtol` gives it, and the low 32 bits are kept.
unfoldable pub sign_of : Bytes → ℕ
unfolding scan_digits
sign_of [] = 0
sign_of (c ∷ s) =
    if c == b'-'
    then (u32 - clamp (scan_digits 0 s) 0x8000_0000_0000_0000 % u32) % u32
    else if c == b'+'
    then clamp (scan_digits 0 s) 0x7fff_ffff_ffff_ffff % u32
    else clamp (scan_digits 0 (c ∷ s)) 0x7fff_ffff_ffff_ffff % u32

unfoldable pub atoi : Bytes → ℕ
unfolding sign_of skip_space
atoi s = sign_of (skip_space s)

runs :
    (print_nat 65535 ≡ codes "65535") × (atoi (codes "  12ab") ≡ 12) × (atoi (codes "-1") ≡ u32 - 1)
unfolding print_nat atoi
runs = (refl, refl, refl)

scan_last : (n : ℕ) (out : Bytes) → scan_digits (n / 10) ((b'0' + n % 10) ∷ out) ≡ scan_digits n out
unfolding scan_digits
scan_last n out = ground arith

scan-print_digits :
    (f n : ℕ) (out : Bytes) → n ≤ f → scan_digits 0 (print_digits f n out) ≡ scan_digits n out
unfolding print_digits
scan-print_digits zero n out h = let e : n ≡ 0 = omega arith in rw e
scan-print_digits (suc f) n out h =
    ground (arith, scan-print_digits f (n / 10) ((b'0' + n % 10) ∷ out), scan_last n out)

pub scan-print_nat : (n : ℕ) → scan_digits 0 (print_nat n) ≡ n
unfolding print_nat scan_digits
scan-print_nat n = ground (arith, scan-print_digits n n [])

-- Every byte is a digit.
abbrev pub IsDigit : ℕ → Type 0
IsDigit c = (b'0' ≤ c) × (c ≤ b'9')

print_digits-IsDigit :
    (f n : ℕ) (out : Bytes) → All IsDigit out → All IsDigit (print_digits f n out)
unfolding print_digits
print_digits-IsDigit zero n out h = h
print_digits-IsDigit (suc f) n out h =
    ground (arith, print_digits-IsDigit f (n / 10) ((b'0' + n % 10) ∷ out))

pub print_nat-IsDigit : (n : ℕ) → All IsDigit (print_nat n)
unfolding print_nat
print_nat-IsDigit n = ground (arith, print_digits-IsDigit n n [] tt)

atoi_digits : (s : Bytes) → All IsDigit s → scan_digits 0 s < 2 ^ 31 → atoi s ≡ scan_digits 0 s
unfolding atoi scan_digits
atoi_digits [] d h = refl
atoi_digits (c ∷ s) d h = ground (arith, d.0)

-- `atoi` reads back what `%d` prints.
pub atoi-print_nat : (n : ℕ) → n < 2 ^ 31 → atoi (print_nat n) ≡ n
atoi-print_nat n h =
    omega (arith, scan-print_nat n, atoi_digits (print_nat n) (print_nat-IsDigit n))
