-- ===== src/Formats/Json/Escape.antt =====
-- What a JSON reader makes of an escaped string, and how long it is.
use mathlib.Core.List.{append-nil, append_assoc}
use rmlint.Common.{
  ℕ, zero, suc, ◌+◌, ◌-◌, ◌*◌, ◌/◌, ◌%◌, ◌≤◌, ◌<◌, ◌≡◌, ◌≢◌, sym, refl, ◌∙◌, ap, true, false, ◌&&◌,
  ◌||◌, [], ◌∷◌, ◌++◌, Option, none, some, ◌==◌, ltb, leb, if◌then◌else◌, length, length-append,
  arith, All, Bool-cases, ◌⊎◌, inl, inr,
}
use native.Mathlib.Decide.{ℕ_discrete}
use rmlint.Cfg.{Bytes}
use rmlint.Formats.Json.{hex_digit, control_text, escape_byte, escape_bytes, json_fix}

-- The value of a hexadecimal digit; 16 for any other byte.
abbrev pub hex_value : ℕ → ℕ
hex_value d =
    if leb b'0' d && leb d b'9'
    then d - b'0'
    else if leb b'a' d && leb d b'f'
    then d - b'a' + 10
    else 16

-- Where a reader stands: in the text, behind a backslash, or behind \u and some digits.
pub data Reading : Type 0 where
  plain escaped : Reading
  digits : ℕ → ℕ → Reading

abbrev pub with_byte : ℕ → Option Bytes → Option Bytes
with_byte c none = none
with_byte c (some s) = some (c ∷ s)

abbrev pub escape_code : ℕ → Option ℕ
escape_code c =
    if (c == b'"') || (c == b'\\')
    then some c
    else if c == b'b'
    then some 8
    else if c == b'f'
    then some 12
    else if c == b'n'
    then some 10
    else if c == b'r'
    then some 13
    else if c == b't'
    then some 9
    else none

-- The text between the quotes of a JSON string, read byte by byte; none where it is not well-formed.
unfoldable pub read_json : Reading → Bytes → Option Bytes
read_json plain [] = some []
read_json escaped [] = none
read_json (digits n v) [] = none
read_json plain (c ∷ s) =
    let e = read_json escaped s in
    let p = read_json plain s in
    if ltb c 32 || (c == b'"') then none else if c == b'\\' then e else with_byte c p
read_json escaped (c ∷ s) =
    let u = read_json (digits 0 0) s in
    let p = read_json plain s in
    if c == b'u' then u else elim (escape_code c) [ none ↦ none | some code ↦ with_byte code p ]
read_json (digits n v) (c ∷ s) =
    let w = 16 * v + hex_value c in
    let more = read_json (digits (n + 1) w) s in
    let p = read_json plain s in
    if ltb (hex_value c) 16 then if n == 3 then with_byte w p else more else none

-- The bytes that the formatter escapes as JSON wants it: 0 ends the string, and 31 is left as it is.
abbrev pub Escapable : ℕ → Type 0
Escapable c = (0 < c) × (c ≢ 31)

hex_value-digit : (d : ℕ) → d < 16 → hex_value (hex_digit d) ≡ d
hex_value-digit d h = ground arith

read_json-digit :
    (n v d : ℕ) (s : Bytes)
    → d < 16
    → read_json (digits n v) (hex_digit d ∷ s) ≡ (
        if n == 3
        then with_byte (16 * v + d) (read_json plain s)
        else read_json (digits (n + 1) (16 * v + d)) s)
unfolding read_json
read_json-digit n v d s h =
    let e = hex_value-digit d h in
    let t : ltb (hex_value (hex_digit d)) 16 ≡ true = ground arith in rw (t, e)

read_json-control :
    (c : ℕ) (s : Bytes)
    → c < 256
    → read_json escaped (b'u' ∷ b'0' ∷ b'0' ∷ hex_digit (c / 16) ∷ hex_digit (c % 16) ∷ s)
      ≡ with_byte c (read_json plain s)
unfolding read_json
read_json-control c s h =
    read_json-digit 2 0 (c / 16) (hex_digit (c % 16) ∷ s) (omega arith)
    ∙ read_json-digit 3 (16 * 0 + c / 16) (c % 16) s (omega arith)
    ∙ ap (λ b. with_byte b (read_json plain s)) (omega arith)

read_json-plain :
    (c : ℕ) (s : Bytes)
    → 32 ≤ c
    → (c == b'"') ≡ false
    → (c == b'\\') ≡ false
    → read_json plain (c ∷ s) ≡ with_byte c (read_json plain s)
unfolding read_json
read_json-plain c s l q b = let t : ltb c 32 ≡ false = ground arith in rw (t, q, b)

test : (a b : ℕ) → a ≢ b → (a == b) ≡ false
test a b ne = ground arith

read_json-control_text :
    (c : ℕ) (s : Bytes)
    → c < 256
    → read_json plain (control_text c ++ s) ≡ with_byte c (read_json plain s)
unfolding control_text read_json
read_json-control_text c s h = elim (ℕ_discrete c 8) [
  | yes e ↦ rw e refl
  | no n8 ↦ elim (ℕ_discrete c 12) [
    | yes e ↦ rw e refl
    | no n12 ↦ elim (ℕ_discrete c 10) [
      | yes e ↦ rw e refl
      | no n10 ↦ elim (ℕ_discrete c 13) [
        | yes e ↦ rw e refl
        | no n13 ↦ elim (ℕ_discrete c 9) [
          | yes e ↦ rw e refl
          | no n9 ↦
              rw (test c 8 n8, test c 12 n12, test c 10 n10, test c 13 n13, test c 9 n9)
                (read_json-control c s h)
        ]
      ]
    ]
  ]
]

-- One byte's text is read back as that byte.
read_json-escape_byte :
    (c : ℕ) (s : Bytes)
    → Escapable c
    → read_json plain (escape_byte c ++ s) ≡ with_byte c (read_json plain s)
unfolding escape_byte read_json
read_json-escape_byte c s h = elim (Bool-cases ((c == b'"') || (c == b'\\'))) [
  | inl special ↦
      (let which : (c ≡ b'"') ⊎ (c ≡ b'\\') = ground arith in
        elim which [ inl quote ↦ rw quote refl | inr backslash ↦ rw backslash refl ])
  | inr usual ↦ elim (Bool-cases ((ltb 0 c && ltb c 31) || (c == 127))) [
    | inl control ↦ rw (usual, control) (read_json-control_text c s (ground arith))
    | inr printable ↦
        rw (usual, printable) (read_json-plain c s (ground arith) (ground arith) (ground arith))
  ]
]

-- The texts of all bytes.
unfoldable pub escape_all : Bytes → Bytes
escape_all [] = []
escape_all (c ∷ string) = escape_byte c ++ escape_all string

escape_bytes-whole :
    (n : ℕ) (fixed string : Bytes)
    → length (escape_bytes n fixed string) < n
    → escape_bytes n fixed string ≡ fixed ++ escape_all string
unfolding escape_bytes escape_all
escape_bytes-whole n fixed [] short = sym (append-nil fixed)
escape_bytes-whole n fixed (c ∷ string) short = elim (Bool-cases (ltb (length fixed) n)) [
  | inl room ↦
      let all = escape_bytes-whole n (fixed ++ escape_byte c) string (rw room at short) in
      rw room (all ∙ append_assoc fixed (escape_byte c) (escape_all string))
  | inr full ↦ ground (arith, full, (rw full at short))
]

read_json-escape_all :
    (string : Bytes) → All Escapable string → read_json plain (escape_all string) ≡ some string
unfolding read_json escape_all
read_json-escape_all [] h = refl
read_json-escape_all (c ∷ string) h =
    read_json-escape_byte c (escape_all string) h.0
    ∙ ap (with_byte c) (read_json-escape_all string h.1)

length-escape_byte : (c : ℕ) → length (escape_byte c) ≤ 6
unfolding escape_byte control_text
length-escape_byte c = ground arith

length-escape_bytes :
    (n : ℕ) (fixed string : Bytes)
    → length fixed ≤ n + 5
    → length (escape_bytes n fixed string) ≤ n + 5
unfolding escape_bytes
length-escape_bytes n fixed [] h = h
length-escape_bytes n fixed (c ∷ string) h =
    let more = length-escape_bytes n (fixed ++ escape_byte c) string in
    ground (arith, more, length-append fixed (escape_byte c), length-escape_byte c)

-- For a string without byte 0, which would end it, and without byte 31, which the program does not
-- escape: if rm_fmt_json_fix returns true, a JSON reader reads the text back as the string it was made
-- of.
pub json_fix-read_json :
    (string : Bytes) (fixed_len : ℕ)
    → All Escapable string
    → (json_fix string fixed_len).1 ≡ true
    → read_json plain (json_fix string fixed_len).0 ≡ some string
unfolding json_fix
json_fix-read_json string fixed_len ok fits =
    ap (read_json plain) (escape_bytes-whole fixed_len [] string (ground (arith, fits)))
    ∙ read_json-escape_all string ok

-- The text and the 0 behind it may need six bytes more than the buffer has, and no more than that.
length-json_fix :
    (string : Bytes) (fixed_len : ℕ) → length (json_fix string fixed_len).0 + 1 ≤ fixed_len + 6
unfolding json_fix
length-json_fix string fixed_len =
    omega (arith, length-escape_bytes fixed_len [] string (omega arith))

-- n letters, and a control byte behind them
abbrev pub letters : ℕ → Bytes
letters zero = 1 ∷ []
letters (suc n) = b'a' ∷ letters n

escape_bytes-letters :
    (n k : ℕ) (fixed : Bytes)
    → length fixed + k ≡ n
    → length (escape_bytes (n + 1) fixed (letters k)) ≡ n + 6
unfolding escape_bytes escape_byte control_text
escape_bytes-letters n zero fixed e = ground (arith, length-append fixed (escape_byte 1))
escape_bytes-letters n (suc k) fixed e =
    let more = escape_bytes-letters n k (fixed ++ b'a' ∷ []) in
    ground (arith, more, length-append fixed (b'a' ∷ []))

-- For a buffer of any size but 0 there is a string whose text takes, with the 0 behind it, six bytes
-- more than the buffer has, and rm_fmt_json_fix then returns false.
pub json_fix_overflow :
    (n : ℕ)
    → (length (json_fix (letters n) (n + 1)).0 + 1 ≡ n + 1 + 6)
      × ((json_fix (letters n) (n + 1)).1 ≡ false)
unfolding json_fix
json_fix_overflow n =
    let long = escape_bytes-letters n n [] (omega arith) in
    (omega (arith, long), ground (arith, long))
