-- ===== src/Prelude/Word.antt =====
-- Rust's unsigned words: a value is a natural number, and arithmetic says what it does at the end
-- of the range.
use Prim.Native.Nat.{ℕ, ◌+◌, ◌-◌, ◌<◌}
use mathlib.Core.Path.{◌≡◌}
use mathlib.Core.Option.{Option, none, some}
use native.Mathlib.Omega.{arith}
use xgeny_cli.Prelude.Tests.{ltb, leb, if◌then◌else◌}

abbrev pub u32_mod : ℕ
u32_mod = 4294967296

abbrev pub u64_mod : ℕ
u64_mod = 18446744073709551616

-- `u32::checked_add` and `u64::checked_add`; `usize` is taken as a 64-bit word.
abbrev pub checked_add_u32 : ℕ → ℕ → Option ℕ
checked_add_u32 a b = if ltb (a + b) u32_mod then some (a + b) else none

abbrev pub checked_add_u64 : ℕ → ℕ → Option ℕ
checked_add_u64 a b = if ltb (a + b) u64_mod then some (a + b) else none

-- `usize::checked_sub`
abbrev pub checked_sub : ℕ → ℕ → Option ℕ
checked_sub a b = if leb b a then some (a - b) else none

-- `u32::try_from`
abbrev pub try_u32 : ℕ → Option ℕ
try_u32 n = if ltb n u32_mod then some n else none

pub checked_add_u32-eq-some :
    (a b : ℕ) {c : ℕ} → checked_add_u32 a b ≡ some c → (c ≡ a + b) × (a + b < u32_mod)
checked_add_u32-eq-some a b h = ground arith

pub checked_add_u64-eq-some :
    (a b : ℕ) {c : ℕ} → checked_add_u64 a b ≡ some c → (c ≡ a + b) × (a + b < u64_mod)
checked_add_u64-eq-some a b h = ground arith

-- `usize::saturating_add`
abbrev pub saturating_add : ℕ → ℕ → ℕ
saturating_add a b = if ltb (a + b) u64_mod then a + b else u64_mod - 1
