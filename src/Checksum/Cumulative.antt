-- ===== src/Checksum/Cumulative.antt =====
-- The cumulative digest of lib/checksum.c, which directories are compared by. A byte is a number below
-- 256. The source xors whole words first and the remaining bytes then; a word is its bytes here, since
-- the length of the digest is a multiple of the word's.
pub mod Order
use rmlint.Common.{
  ℕ, zero, suc, ◌+◌, ◌-◌, ◌*◌, ◌/◌, ◌%◌, List, [], ◌∷◌, Option, none, some, min, max, ◌==◌,
  if◌then◌else◌, length,
}
use rmlint.Cfg.{Bytes}

-- a ^ b, of w bits
unfoldable pub xor_bits : ℕ → ℕ → ℕ → ℕ
xor_bits zero a b = 0
xor_bits (suc w) a b = xor_bits w (a / 2) (b / 2) * 2 + (a + b) % 2

-- RM_DIGEST_CUMULATIVE_ALIGN of a 64-bit platform, and RM_DIGEST_CUMULATIVE_MAX_BYTES
abbrev pub cumulative_align : ℕ
cumulative_align = 8

abbrev pub cumulative_max_bytes : ℕ
cumulative_max_bytes = 64

-- The length of the digest that a first update of `size` bytes sets.
unfoldable pub cumulative_bytes : ℕ → ℕ
cumulative_bytes size =
    cumulative_align
    * max 1 (min (size / cumulative_align) (cumulative_max_bytes / cumulative_align))

-- g_slice_alloc0(bytes)
unfoldable pub zeros : ℕ → Bytes
zeros zero = []
zeros (suc n) = 0 ∷ zeros n

-- state->data[pos] ^= byte
unfoldable pub xor_at : ℕ → ℕ → Bytes → Bytes
unfolding xor_bits
xor_at pos byte [] = []
xor_at zero byte (x ∷ data_) = xor_bits 8 x byte ∷ data_
xor_at (suc pos) byte (x ∷ data_) = x ∷ xor_at pos byte data_

-- The loops of rm_digest_cumulative_update, from a position in the digest on.
unfoldable pub absorb : ℕ → ℕ → Bytes → Bytes → Bytes
unfolding xor_at
absorb bytes pos [] state = state
absorb bytes pos (byte ∷ input) state =
    absorb bytes (if pos + 1 == bytes then 0 else pos + 1) input (xor_at pos byte state)

-- rm_digest_cumulative_update; the state is NULL before the first one
unfoldable pub cumulative_update : Option Bytes → Bytes → Bytes
unfolding absorb cumulative_bytes zeros
cumulative_update none input =
    let bytes = cumulative_bytes (length input) in absorb bytes 0 input (zeros bytes)
cumulative_update (some state) input = absorb (length state) 0 input state

-- A digest that was fed a sequence of inputs.
unfoldable pub cumulative_updates : Option Bytes → List Bytes → Option Bytes
unfolding cumulative_update
cumulative_updates state [] = state
cumulative_updates state (input ∷ inputs) =
    cumulative_updates (some (cumulative_update state input)) inputs
