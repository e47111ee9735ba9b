-- ===== src/Formats/Json.antt =====
-- The escaping of lib/formats/json.c. A string is the list of its bytes without the 0 at its end.
pub mod Escape
use rmlint.Common.{
  ℕ, ◌+◌, ◌-◌, ◌/◌, ◌%◌, Bool, true, false, ◌&&◌, ◌||◌, List, [], ◌∷◌, ◌++◌, ◌==◌, ltb,
  if◌then◌else◌, length,
}
use rmlint.Cfg.{Bytes}

-- A digit of %02x.
abbrev pub hex_digit : ℕ → ℕ
hex_digit d = if ltb d 10 then b'0' + d else b'a' + d - 10

-- The switch for a control byte; '\b' is 8, '\t' 9, '\n' 10, '\f' 12 and '\r' 13.
unfoldable pub control_text : ℕ → Bytes
control_text c =
    if c == 8
    then b'\\' ∷ b'b' ∷ []
    else if c == 12
    then b'\\' ∷ b'f' ∷ []
    else if c == 10
    then b'\\' ∷ b'n' ∷ []
    else if c == 13
    then b'\\' ∷ b'r' ∷ []
    else if c == 9
    then b'\\' ∷ b't' ∷ []
    else b'\\' ∷ b'u' ∷ b'0' ∷ b'0' ∷ hex_digit (c / 16) ∷ hex_digit (c % 16) ∷ []

-- The text for one byte.
unfoldable pub escape_byte : ℕ → Bytes
unfolding control_text
escape_byte c =
    if (c == b'"') || (c == b'\\')
    then b'\\' ∷ c ∷ []
    else if (ltb 0 c && ltb c 31) || (c == 127)
    then control_text c
    else c ∷ []

-- The loop of rm_fmt_json_fix, with the bytes written so far: a text is copied whole once it is begun.
unfoldable pub escape_bytes : ℕ → Bytes → Bytes → Bytes
unfolding escape_byte
escape_bytes fixed_len fixed [] = fixed
escape_bytes fixed_len fixed (c ∷ string) =
    let rest = escape_bytes fixed_len (fixed ++ escape_byte c) string in
    if ltb (length fixed) fixed_len then rest else fixed

-- rm_fmt_json_fix: what is written to `fixed`, and the result
unfoldable pub json_fix : Bytes → ℕ → Bytes × Bool
unfolding escape_bytes
json_fix string fixed_len =
    let fixed = escape_bytes fixed_len [] string in (fixed, ltb (length fixed) fixed_len)
