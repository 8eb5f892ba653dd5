-- ===== src/ByteUtils.antt =====
-- byte_utils.h and byte_utils.c: the bytes of an unsigned int, stored and loaded.
pub mod Format
mod Or
pub mod Load
mod Tests
use stm8flash.Common.{
  ℕ, zero, suc, ◌+◌, ◌-◌, ◌*◌, ◌%◌, ◌>>◌, ◌<<◌, u32, List, Option, none, some, ltb, ◌==◌,
  if◌then◌else◌,
}
use stm8flash.Common.{length as size, set, get_elem?, bit_or}

-- EH, EX, HI and LO: the bytes of a 32-bit value, the highest first.
abbrev pub eh : ℕ → ℕ
eh x = (x >> 24) % 256

abbrev pub ex : ℕ → ℕ
ex x = (x >> 16) % 256

abbrev pub hi : ℕ → ℕ
hi x = (x >> 8) % 256

abbrev pub lo : ℕ → ℕ
lo x = x % 256

-- MP_LITTLE_ENDIAN and MP_BIG_ENDIAN.
abbrev pub little_endian : ℕ
little_endian = 0

abbrev pub big_endian : ℕ
big_endian = 1

-- The loop of format_int from `i` on, `count` rounds of it. `none` is a write behind `out`. The
-- shifts are those of an int of 32 bits: a length of 4 at most is meant.
unfoldable pub format_loop : ℕ → ℕ → List ℕ → ℕ → ℕ → ℕ → Option (List ℕ)
format_loop zero i out value length endianess = some out
format_loop (suc count) i out value length endianess =
    let idx = if endianess == little_endian then i else length - 1 - i in
    let rest =
      format_loop count (i + 1) (set out i ((value >> (idx * 8)) % 256)) value length endianess in
    if ltb i (size out) then rest else none

unfoldable pub format_int : List ℕ → ℕ → ℕ → ℕ → Option (List ℕ)
unfolding format_loop
format_int out value length endianess = format_loop length 0 out value length endianess

-- The loop of load_int from `i` on, `count` rounds of it, with the 32 bits of the int `result`.
-- `none` is a read behind `buf`.
unfoldable pub load_loop : ℕ → ℕ → List ℕ → ℕ → ℕ → ℕ → Option ℕ
load_loop zero i buf length endianess result = some result
load_loop (suc count) i buf length endianess result =
    let idx = if endianess == little_endian then i else length - 1 - i in
    elim (get_elem? buf i) as (λ _. Option ℕ) [
      | none ↦ none
      | some byte ↦
          load_loop count (i + 1) buf length endianess (bit_or result (u32 (byte << (idx * 8))))
    ]

unfoldable pub load_int : List ℕ → ℕ → ℕ → Option ℕ
unfolding load_loop
load_int buf length endianess = load_loop length 0 buf length endianess 0
