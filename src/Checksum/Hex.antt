-- ===== src/Checksum/Hex.antt =====
-- Checksums as text (lib/checksum.c): rm_digest_hexstring writes one, and the "ext" digest takes one in.
use rmlint.Common.{
  ℕ, zero, suc, ◌+◌, ◌-◌, ◌*◌, ◌/◌, ◌%◌, ◌<◌, ◌≡◌, refl, ap, ◌∙◌, ◌&&◌, [], ◌∷◌, leb, ltb,
  if◌then◌else◌, length, All, arith,
}
use mathlib.Core.Path.{ap₂}
use rmlint.Cfg.{Bytes}

-- hex[d]
abbrev pub hex_char : ℕ → ℕ
hex_char d = if ltb d 10 then b'0' + d else b'a' + d - 10

-- rm_digest_hexstring, without the 0 at the end
unfoldable pub hexstring : Bytes → Bytes
hexstring [] = []
hexstring (b ∷ input) = hex_char (b / 16) ∷ hex_char (b % 16) ∷ hexstring input

-- CHAR_TO_NUM, an unsigned char
abbrev pub char_to_num : ℕ → ℕ
char_to_num c = if leb b'0' c && leb c b'9' then c - b'0' else (c + 256 - b'a' + 10) % 256

-- The loop of rm_digest_ext_update: state->len bytes, each of two characters
unfoldable pub ext_data : ℕ → Bytes → Bytes
ext_data zero text = []
ext_data (suc n) [] = []
ext_data (suc n) (c ∷ []) = []
ext_data (suc n) (c ∷ d ∷ text) = ((char_to_num c * 16 + char_to_num d) % 256) ∷ ext_data n text

-- rm_digest_ext_update; state->len is a guint8
unfoldable pub ext_update : Bytes → Bytes
unfolding ext_data
ext_update text = ext_data (length text / 2 % 256) text

char_to_num-hex_char : (d : ℕ) → d < 16 → char_to_num (hex_char d) ≡ d
char_to_num-hex_char d h = ground arith

pair :
    (b : ℕ)
    → b < 256
    → (char_to_num (hex_char (b / 16)) * 16 + char_to_num (hex_char (b % 16))) % 256 ≡ b
pair b h = omega (
  arith,
  char_to_num-hex_char (b / 16) (omega arith),
  char_to_num-hex_char (b % 16) (omega arith),
)

ext_data-hexstring : (s : Bytes) → All (λ b. b < 256) s → ext_data (length s) (hexstring s) ≡ s
unfolding ext_data hexstring
ext_data-hexstring [] h = refl
ext_data-hexstring (b ∷ s) h = ap₂ (λ c t. c ∷ t) (pair b h.0) (ext_data-hexstring s h.1)

length-hexstring : (s : Bytes) → length (hexstring s) ≡ 2 * length s
unfolding hexstring
length-hexstring [] = refl
length-hexstring (b ∷ s) = omega (arith, length-hexstring s)

-- A checksum of less than 256 bytes, written as text and taken in by the "ext" digest, is the same again.
pub ext_update-hexstring :
    (s : Bytes) → All (λ b. b < 256) s → length s < 256 → ext_update (hexstring s) ≡ s
unfolding ext_update
ext_update-hexstring s h short =
    ap (λ n. ext_data n (hexstring s)) (omega (arith, length-hexstring s)) ∙ ext_data-hexstring s h
