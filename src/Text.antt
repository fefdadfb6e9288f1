-- ===== src/Text.antt =====
-- Byte strings as Rust's standard library sees them: `&str` literals, `str::contains`, the test of
-- `CStr::to_str` (UTF-8) and the test of `CString::new` (no interior NUL).
pub mod Laws
use Prim.Native.Char.{code}
use lancedb_c.Prelude.{
  ℕ, zero, suc, String, Bool, true, false, ◌&&◌, ◌||◌, List, [], ◌∷◌, leb, ltb, ◌==◌, if◌then◌else◌,
  Option, none, some,
}

abbrev pub Bytes : Type 0
Bytes = List ℕ

-- The bytes of a literal; all literals of the source are ASCII.
abbrev pub codes : String → Bytes
codes String.[] = []
codes (String.◌∷◌ c s) = code c ∷ codes s

unfoldable pub starts_with : Bytes → Bytes → Bool
starts_with [] s = true
starts_with (n ∷ ns) [] = false
starts_with (n ∷ ns) (c ∷ s) = (n == c) && starts_with ns s

-- `s.contains(needle)`
unfoldable pub contains : Bytes → Bytes → Bool
unfolding starts_with
contains needle [] = starts_with needle []
contains needle (c ∷ s) = starts_with needle (c ∷ s) || contains needle s

-- `CString::new` refuses a text that holds a NUL byte.
unfoldable pub has_nul : Bytes → Bool
has_nul [] = false
has_nul (c ∷ s) = (c == 0) || has_nul s

-- What may follow: the start of a character, or `n + 1` continuation bytes, the next in `lo .. hi`.
pub data Utf8 : Type 0 where
  start bad : Utf8
  more : (n lo hi : ℕ) → Utf8

-- The table of well-formed sequences of the Unicode standard, by the leading byte.
lead : ℕ → Utf8
lead b =
    if ltb b 0x80
    then start
    else if ltb b 0xc2
    then bad
    else if ltb b 0xe0
    then more 0 0x80 0xbf
    else if b == 0xe0
    then more 1 0xa0 0xbf
    else if b == 0xed
    then more 1 0x80 0x9f
    else if ltb b 0xf0
    then more 1 0x80 0xbf
    else if b == 0xf0
    then more 2 0x90 0xbf
    else if ltb b 0xf4
    then more 2 0x80 0xbf
    else if b == 0xf4
    then more 2 0x80 0x8f
    else bad

next_byte : Utf8 → ℕ → Utf8
unfolding lead
next_byte start b = lead b
next_byte bad b = bad
next_byte (more zero lo hi) b = if leb lo b && leb b hi then start else bad
next_byte (more (suc n) lo hi) b = if leb lo b && leb b hi then more n 0x80 0xbf else bad

scan : Utf8 → Bytes → Bool
unfolding next_byte
scan start [] = true
scan bad [] = false
scan (more n lo hi) [] = false
scan s (b ∷ bs) = scan (next_byte s b) bs

unfoldable pub is_utf8 : Bytes → Bool
unfolding scan
is_utf8 s = scan start s

-- `CStr::to_str`, with `none` for a text that is not UTF-8.
abbrev pub to_str : Bytes → Option Bytes
to_str s = if is_utf8 s then some s else none
