-- ===== src/Prelude/Text.antt =====
-- Tests on `&str`, which count bytes of UTF-8 as Rust does.
use Prim.Native.Nat.{ℕ, suc}
use Prim.Native.Char.{code}
use Prim.Native.String.{String, [], ◌∷◌, len, slice}
use mathlib.Core.Bool.{Bool, true, false, ◌&&◌, ◌||◌}
use mathlib.Core.Option.{Option, none, some}
use text.Mathlib.Text.{starts_with}
use xgeny_cli.Prelude.Tests.{leb, ltb, ◌==◌, if◌then◌else◌}

unfoldable pub text_len : String → ℕ
text_len = len

unfoldable pub text_is_empty : String → Bool
text_is_empty s = len s == 0

-- `value.chars().all(p)` and `any(p)` on the numbers of the characters. A test that only ASCII
-- passes gives the same answer on the bytes.
unfoldable pub all_chars : (ℕ → Bool) → String → Bool
all_chars p [] = true
all_chars p (c ∷ s) = p (code c) && all_chars p s

unfoldable pub any_char : (ℕ → Bool) → String → Bool
any_char p [] = false
any_char p (c ∷ s) = p (code c) || any_char p s

-- `strip_prefix`
unfoldable pub strip_prefix : String → String → Option String
strip_prefix p s = if starts_with s p then some (slice s (len p) (len s)) else none

-- `char::is_control`: the Unicode category Cc.
unfoldable pub is_control : ℕ → Bool
is_control c = ltb c 32 || (leb 127 c && leb c 159)

unfoldable pub is_ascii_digit : ℕ → Bool
is_ascii_digit c = leb b'0' c && leb c b'9'

unfoldable pub is_lower_hex : ℕ → Bool
is_lower_hex c = (leb b'0' c && leb c b'9') || (leb b'a' c && leb c b'f')

unfoldable pub is_ascii_alphanumeric : ℕ → Bool
is_ascii_alphanumeric c =
    (leb b'0' c && leb c b'9') || (leb b'a' c && leb c b'z') || (leb b'A' c && leb c b'Z')

-- `chars().count()`
unfoldable pub chars_count : String → ℕ
chars_count [] = 0
chars_count (c ∷ s) = suc (chars_count s)

-- A test on the first byte, where there is one, and a test on each of the others.
unfoldable pub head_and_rest : (ℕ → Bool) → (ℕ → Bool) → String → Bool
head_and_rest first rest [] = false
head_and_rest first rest (c ∷ s) = first (code c) && all_chars rest s

unfoldable pub is_ascii_lowercase : ℕ → Bool
is_ascii_lowercase c = leb b'a' c && leb c b'z'
