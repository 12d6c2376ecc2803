-- ===== src/Base/Decimal.antt =====
-- The conversions `%d`, `%2d` and `%02d` of `printf` on the values of an `int`.
use sync_agent.Base.{
  ℕ, zero, suc, ◌+◌, ◌-◌, ◌/◌, ◌%◌, ◌≤◌, [], ◌∷◌, ◌++◌, ltb, if◌then◌else◌, Bytes, arith, length,
  length-append, replicate, length-replicate,
}
use sync_agent.Base.Int.{ℤ, pos, negsuc}

-- The decimal digits of a number below 10 ^ fuel.
unfoldable pub digits : ℕ → ℕ → Bytes
digits zero n = []
digits (suc fuel) n =
    let front = digits fuel (n / 10) in
    if ltb n 10 then (b'0' + n) ∷ [] else front ++ (b'0' + n % 10) ∷ []

-- An `int` has at most ten digits.
abbrev pub int_digits : ℕ
int_digits = 10

-- `%d` on a number that is not negative.
unfoldable pub show_nat : ℕ → Bytes
unfolding digits
show_nat n = digits int_digits n

-- `%d`
unfoldable pub show_int : ℤ → Bytes
unfolding show_nat
show_int (pos n) = show_nat n
show_int (negsuc n) = b'-' ∷ show_nat (n + 1)

-- `%2d` and `%02d`, by the byte that fills the field.
unfoldable pub show_padded : ℕ → ℕ → ℕ → Bytes
unfolding show_nat
show_padded fill width n = replicate (width - length (show_nat n)) fill ++ show_nat n

length-digits : (fuel n : ℕ) → length (digits fuel n) ≤ fuel
unfolding digits
length-digits zero n = omega arith
length-digits (suc fuel) n = ground (
  arith,
  length-digits fuel (n / 10),
  length-append (digits fuel (n / 10)) ((b'0' + n % 10) ∷ []),
)

pub length-show_nat : (n : ℕ) → length (show_nat n) ≤ 10
unfolding show_nat
length-show_nat n = length-digits 10 n

pub length-show_int : (n : ℤ) → length (show_int n) ≤ 11
unfolding show_int
length-show_int (pos n) = omega (arith, length-digits 10 n)
length-show_int (negsuc n) = omega (arith, length-digits 10 (n + 1))

pub length-show_padded : (fill n : ℕ) → length (show_padded fill 2 n) ≤ 12
unfolding show_padded
length-show_padded fill n = omega (
  arith,
  length-digits 10 n,
  length-replicate {A = ℕ} (2 - length (digits 10 n)) fill,
  length-append (replicate (2 - length (digits 10 n)) fill) (digits 10 n),
)
