-- ===== src/StlinkV2/Link.antt =====
-- The commands of stlinkv2.c that reach a chip behind an ST-LINK V2: what the adapter does with
-- SWIM_WRITEMEM and SWIM_READMEM is a hypothesis.
use stm8flash.Common.{ℕ, ◌+◌, ◌≤◌, ◌<◌, ◌≡◌, ap, ◌∙◌, List, [], ◌∷◌, ◌++◌, map, arith, length, u8}
use stm8flash.ByteUtils.{eh, ex, hi, lo}
use stm8flash.Programmer.{ok, and_then}
use stm8flash.Programmer.Memory.{bytes_at}
use stm8flash.Programmer.Chip.{Chip}
use stm8flash.StlinkV2.{Adapter}
use stm8flash.StlinkV2.Swim.{
  writemem, read_memory, received_byte, swim_cmd, swim_write_byte, swim_read_byte,
}

-- SWIM_READMEM reads as many bytes of the array as the adapter's buffer holds.
abbrev pub ReadsArray : {S : Type 0} → Adapter S → Chip S → ℕ → Type 0
ReadsArray {S = S} adapter chip read_buf_size =
    (a n : ℕ) (s : S)
    → 1 ≤ n
    → n ≤ read_buf_size
    → chip.array_start ≤ a
    → a + n ≤ chip.array_end
    → read_memory adapter n a s ≡ ok (bytes_at (chip.memory s) a n) (chip.after_read a s)

-- What the adapter does, as its users find it: SWIM_WRITEMEM writes the bytes, of the arguments and
-- the data behind them, at the address; SWIM_READMEM reads one byte, or as many of the array as its
-- buffer holds.
pub record Reaches {S : Type 0} (adapter : Adapter S) (chip : Chip S) (read_buf_size : ℕ)
    : Type 0 where
  pub written :
      (a : ℕ) (args bytes : List ℕ) (s : S)
      → a < 4294967296
      → length args + length bytes < 65536
      → adapter.swim_cmd_with_data (writemem (length args + length bytes) a ++ args) bytes s
        ≡ ok tt (chip.write_at a (map u8 args ++ bytes) s)
  pub one_read :
      (a : ℕ) (s : S)
      → a < 16777216
      → read_memory adapter 1 a s ≡ ok (chip.register_at a s ∷ []) (chip.after_read a s)
  pub array_read : ReadsArray adapter chip read_buf_size

module _ {S : Type 0} (adapter : Adapter S) (chip : Chip S) (read_buf_size : ℕ)
    (reaches : Reaches adapter chip read_buf_size) where
  pub swim_write_byte-write_at :
      (b a : ℕ) (s : S)
      → a < 16777216
      → swim_write_byte adapter b a s ≡ ok tt (chip.write_at a (u8 b ∷ []) s)
  unfolding swim_write_byte swim_cmd
  swim_write_byte-write_at b a s h =
      let top : 0 ≡ eh a = omega arith in
      let once : u8 (u8 b) ≡ u8 b = omega arith in
      ap
        (λ e.
          adapter.swim_cmd_with_data (0xf4 ∷ 0x0a ∷ 0 ∷ 1 ∷ e ∷ ex a ∷ hi a ∷ lo a ∷ u8 b ∷ []) []
            s)
        top
      ∙ reaches.written a (u8 b ∷ []) [] s (omega arith) (omega arith)
      ∙ ap (λ c. ok tt (chip.write_at a (c ∷ []) s)) once

  pub swim_read_byte-register_at :
      (a : ℕ) (s : S)
      → a < 16777216
      → swim_read_byte adapter a s ≡ ok (chip.register_at a s) (chip.after_read a s)
  unfolding swim_read_byte
  swim_read_byte-register_at a s h =
      ap (λ r. and_then r (received_byte adapter)) (reaches.one_read a s h)
