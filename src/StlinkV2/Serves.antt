-- ===== src/StlinkV2/Serves.antt =====
-- An ST-LINK V2 as main uses it.
use stm8flash.Common.{
  ℕ, [], ◌∷◌, ◌∙◌, arith, set_bit, u8, ◌+◌, ◌*◌, ◌%◌, ◌≤◌, ◌<◌, ◌≡◌, some, true, false, length,
  take,
}
use stm8flash.Device.{Device}
use stm8flash.Programmer.{ok, Message, write_protected, Programmer, block_programmed}
use stm8flash.Programmer.Ends.{Ends, Ends-mono}
use stm8flash.Programmer.Block.{rounded_size}
use stm8flash.Programmer.Memory.{bytes_at, store}
use stm8flash.Programmer.Chip.{Chip, Kept, IsStm8}
use stm8flash.Main.{Request, align_read, align_write}
use stm8flash.Main.Serves.{Never, Serves}
use stm8flash.StlinkV2.{Adapter}
use stm8flash.StlinkV2.Link.{Reaches, swim_write_byte-write_at, swim_read_byte-register_at}
use stm8flash.StlinkV2.Swim.{swim_cmd, stlink2_swim_read_range, stlink2_srst, stlink2_close}
use stm8flash.StlinkV2.Read.{IsRead, stlink2_swim_read_range-bytes_at}
use stm8flash.StlinkV2.Write.{stlink2_swim_write_range}
use stm8flash.StlinkV2.Write.Steps.{HasRegisters}
use stm8flash.StlinkV2.Write.Range.{stlink2_swim_write_range-IsWritten}

module _ {S : Type 0} (adapter : Adapter S) (device : Device) (read_buf_size : ℕ) where
  -- The entry of `pgms` in main.c, behind stlink2_open, which has learned the size of the buffer.
  unfoldable pub stlink2 : Programmer S
  stlink2 = record {
    reset = some (stlink2_srst adapter);
    close = stlink2_close adapter;
    read_range = stlink2_swim_read_range adapter read_buf_size;
    write_range = stlink2_swim_write_range adapter device read_buf_size;
  }

-- A block of the range is protected.
abbrev pub HasProtected : {S : Type 0} → Chip S → ℕ → ℕ → ℕ → S → Message → S → Type 0
HasProtected chip block_size start length s message t =
    (message ≡ write_protected)
    × (n : ℕ) × (n * block_size < length)
    × (chip.is_protected (start + n * block_size) ≡ true)

-- What a reset does: the SWIM control register is not of the memory, and behind SWIM_GEN_RST the
-- chip has its memory.
pub record Resets {S : Type 0} (adapter : Adapter S) (chip : Chip S) : Type 0 where
  pub csr_written : (b : ℕ) (s : S) → chip.memory (chip.write_at 0x7f80 (b ∷ []) s) ≡ chip.memory s
  pub restarted :
      (s : S)
      → (t : S) × (adapter.swim_cmd_with_data (0xf4 ∷ 0x05 ∷ []) [] s ≡ ok tt t)
        × (chip.memory t ≡ chip.memory s)

module _ {S : Type 0} (adapter : Adapter S) (chip : Chip S) (read_buf_size : ℕ)
    (reaches : Reaches adapter chip read_buf_size)
    (read_kept : (a : ℕ) (s : S) → Kept chip s (chip.after_read a s))
    (reset : Resets adapter chip) where
  stlink2_srst-memory :
      (s : S) → Ends (λ _ t. chip.memory t ≡ chip.memory s) Never (stlink2_srst adapter s)
  unfolding stlink2_srst swim_cmd
  stlink2_srst-memory s =
      let csr : ℕ = set_bit 2 (chip.register_at 0x7f80 s) in
      let t : S = chip.after_read 0x7f80 s in
      let u : S = chip.write_at 0x7f80 (u8 csr ∷ []) t in
      let (v, done, same) = reset.restarted u in
      rw
        (
          swim_read_byte-register_at adapter chip read_buf_size reaches 0x7f80 s (omega arith),
          swim_write_byte-write_at adapter chip read_buf_size reaches csr 0x7f80 t (omega arith),
          done,
        )
        (same ∙ reset.csr_written (u8 csr) t ∙ (read_kept 0x7f80 s).memory)

module _ {S : Type 0} (adapter : Adapter S) (chip : Chip S) (read_buf_size : ℕ)
    (reaches : Reaches adapter chip read_buf_size) (some_room : 1 ≤ read_buf_size) (device : Device)
    (r : Request) (stm8 : IsStm8 chip device.regs device.flash_block_size r.memtype)
    (registers : HasRegisters device.regs) (array : block_programmed r.memtype ≡ true)
    (some_block : 1 ≤ device.flash_block_size) (small_blocks : device.flash_block_size < 65536)
    (reset : Resets adapter chip) where
  -- An ST-LINK V2 that reaches a chip which behaves as documented serves main: a range of the flash
  -- or EEPROM, of from 1 to 16777216 bytes and with its whole blocks in the array, is read as it
  -- stands and written with exactly its bytes into a memory that is otherwise as before, or the
  -- program ends with the message of a write-protected block, and one lies in the range. It is
  -- supposed that a reset keeps the memory.
  pub stlink2-Serves :
      1 ≤ r.bytes_count
      → r.bytes_count ≤ 16777216
      → r.start % device.flash_block_size ≡ 0
      → chip.array_start ≤ r.start
      → r.start + align_write device r.bytes_count ≤ chip.array_end
      → r.start + align_read r.bytes_count ≤ chip.array_end
      → chip.array_end ≤ 16777216
      → Serves
          (stlink2 adapter device read_buf_size)
          chip.memory
          r
          (align_write device r.bytes_count)
          (HasProtected chip device.flash_block_size r.start r.bytes_count)
  unfolding stlink2 align_write rounded_size
  stlink2-Serves some_byte few aligned from write_to read_to below = record {
    reads = λ s.
        Ends-mono (IsRead chip r.start (align_read r.bytes_count) s)
          (λ bytes t.
            (bytes ≡ bytes_at (chip.memory s) r.start (align_read r.bytes_count))
            × (chip.memory t ≡ chip.memory s))
          Never Never _
          (stlink2_swim_read_range-bytes_at adapter chip read_buf_size reaches.array_read
            stm8.read_kept some_room r.start (align_read r.bytes_count) s from read_to below)
          (λ bytes t h. (h.0, h.1.memory)) (λ message t h. h);
    writes = λ buf s room.
        Ends-mono
          (λ n t.
            (n ≡ r.bytes_count)
            × (chip.memory t ≡ store (chip.memory s) r.start (take r.bytes_count buf))
            × (chip.unlocked t ≡ false))
          (λ n t.
            (n ≡ r.bytes_count)
            × (chip.memory t ≡ store (chip.memory s) r.start (take r.bytes_count buf)))
          (λ message t.
            (message ≡ write_protected)
            × (n : ℕ) × (n * device.flash_block_size < r.bytes_count)
            × (chip.is_protected (r.start + n * device.flash_block_size) ≡ true)
            × (chip.memory t
                ≡ store (chip.memory s) r.start (take (n * device.flash_block_size) buf)))
          (HasProtected chip device.flash_block_size r.start r.bytes_count s) _
          (stlink2_swim_write_range-IsWritten adapter chip read_buf_size reaches some_room device
            r.memtype stm8 registers array some_block small_blocks buf r.start r.bytes_count s
            some_byte few room aligned from write_to below)
          (λ n t h. (h.0, h.1))
          (λ message t (e, n, inside, protected, _). (e, n, inside, protected));
    resets = stlink2_srst-memory adapter chip read_buf_size reaches stm8.read_kept reset;
  }
