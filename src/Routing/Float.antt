-- ===== src/Routing/Float.antt =====
-- The tests and the comparison of `f64` that crates/xgeny-runtime/src/router.rs uses, on the bits of
-- IEEE 754: the sign, eleven bits of exponent and fifty-two of mantissa.
use Prim.Native.Nat.{Ordering, compare}
use xgeny_cli.Prelude.{ℕ, ◌+◌, ◌-◌, ◌/◌, ◌%◌, Bool, not, ◌&&◌, ◌||◌, ◌==◌, leb, if◌then◌else◌}

-- `f64::to_bits`
abbrev pub F64 : Type 0
F64 = ℕ

abbrev sign_bit : ℕ
sign_bit = 9223372036854775808

abbrev one_bits : ℕ
one_bits = 4607182418800017408

abbrev is_negative : F64 → Bool
is_negative bits = leb sign_bit bits

abbrev exponent : F64 → ℕ
exponent bits = bits / 4503599627370496 % 2048

abbrev is_nan : F64 → Bool
is_nan bits = (exponent bits == 2047) && not (bits % 4503599627370496 == 0)

-- `value == 0.0`, of both zeros.
abbrev is_zero : F64 → Bool
is_zero bits = (bits == 0) || (bits == sign_bit)

-- `is_finite`
unfoldable pub is_finite : F64 → Bool
is_finite bits = not (exponent bits == 2047)

-- `value < 0.0`
unfoldable pub below_zero : F64 → Bool
below_zero bits = not (is_nan bits) && (is_negative bits && not (is_zero bits))

-- `(0.0..=1.0).contains(&value)`
unfoldable pub in_unit_range : F64 → Bool
in_unit_range bits =
    not (is_nan bits)
    && ((not (is_negative bits) || is_zero bits) && (is_negative bits || leb bits one_bits))

-- The rank of a value in the order of `total_cmp`, which flips the lower bits of a negative one.
abbrev pub total_rank : F64 → ℕ
total_rank bits =
    if is_negative bits then 18446744073709551615 - bits else bits + 9223372036854775808

-- `total_cmp`
abbrev pub total_cmp : F64 → F64 → Ordering
total_cmp a b = compare (total_rank a) (total_rank b)

-- `normalize_zero`
abbrev pub normalize_zero : F64 → F64
normalize_zero bits = if is_zero bits then 0 else bits
