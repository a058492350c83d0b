-- ===== src/Battor/Text.antt =====
-- `str.strip` and what `int` reads, on ASCII texts.
use Prim.Native.Char.{code}
use Prim.Native.String.{char_at, slice, len}
use text.Mathlib.Text.{starts_with}
use car_multimedia_android_a.Base.{
  ℕ, zero, suc, ◌+◌, Bool, true, not, ◌&&◌, ◌||◌, String, str_eq, leb, ◌==◌, if◌then◌else◌,
}

abbrev pub byte_at : String → ℕ → ℕ
byte_at s i = code (char_at s i)

abbrev is_blank : ℕ → Bool
is_blank c = c == 32 || leb 9 c && leb c 13

-- The place of the first byte from `i` on that is not blank, among `n` bytes
unfoldable lead : ℕ → String → ℕ → ℕ
lead zero s i = i
lead (suc n) s i = let next = lead n s (i + 1) in if is_blank (byte_at s i) then next else i

-- The place behind the last of the first `n` bytes that is not blank
unfoldable trail : ℕ → String → ℕ
trail zero s = 0
trail (suc n) s = let rest = trail n s in if is_blank (byte_at s n) then rest else suc n

-- `str.strip`
unfoldable pub strip : String → String
unfolding lead trail
strip s = slice s (lead (len s) s 0) (trail (len s) s)

abbrev pub is_digit : ℕ → Bool
is_digit c = leb b'0' c && leb c b'9'

abbrev pub is_hex_digit : ℕ → Bool
is_hex_digit c = is_digit c || leb b'a' c && leb c b'f' || leb b'A' c && leb c b'F'

-- That all of the first `n` bytes pass
unfoldable pub all_bytes : (ℕ → Bool) → ℕ → String → Bool
all_bytes p zero s = true
all_bytes p (suc n) s = p (byte_at s n) && all_bytes p n s

abbrev drop_prefix : String → String → String
drop_prefix p s = if starts_with s p then slice s (len p) (len s) else s

abbrev drop_sign : String → String
drop_sign s = if starts_with s "-" then drop_prefix "-" s else drop_prefix "+" s

abbrev drop_hex_prefix : String → String
drop_hex_prefix s = if starts_with s "0x" then drop_prefix "0x" s else drop_prefix "0X" s

abbrev is_all : (ℕ → Bool) → String → Bool
is_all p s = not (str_eq s "") && all_bytes p (len s) s

-- Whether `int(s, 16)` returns
unfoldable pub is_hexadecimal : String → Bool
unfolding strip all_bytes
is_hexadecimal s = is_all is_hex_digit (drop_hex_prefix (drop_sign (strip s)))

-- Whether `int(s)` returns
unfoldable pub is_decimal : String → Bool
unfolding strip all_bytes
is_decimal s = is_all is_digit (drop_sign (strip s))

-- Whether it then is 0
unfoldable pub is_zero : String → Bool
unfolding strip all_bytes
is_zero s = is_all (λ c. c == b'0') (drop_sign (strip s))
