-- ===== src/Ihex.antt =====
-- ihex.c: the Intel hex writer and the types its parts share. The reader is `Ihex.Reader`.
pub mod Reader
pub mod Text
pub mod Writer
pub mod Prefix
pub mod Record
pub mod Plain
pub mod Line
pub mod Loop
pub mod RoundTrip
pub mod Safety
pub mod AnyFile
mod Tests
use stm8flash.Common.{ℕ, zero, suc, ◌+◌, ◌-◌, ◌%◌, List, [], ◌∷◌, ◌++◌, Bool}
use stm8flash.Common.{ltb, ◌==◌, if◌then◌else◌, drop, u8, u16, u32, sub32, ◌>>◌}
use stm8flash.Stdio.{newline, print_hex}
use stm8flash.Stdio.Output.{Io, ok, fault, stuck, ◌>>=◌, fprintf, fprintf_unchecked}

-- HI and LO of ihex.c.
abbrev pub hi : ℕ → ℕ
hi x = (x >> 8) % 256

abbrev pub lo : ℕ → ℕ
lo x = x % 256

-- The bytes that a `for` loop over `length` bytes of an array adds up.
unfoldable pub sum_bytes : ℕ → List ℕ → ℕ
sum_bytes zero bytes = 0
sum_bytes (suc length) [] = 0
sum_bytes (suc length) (b ∷ bytes) = b + sum_bytes length bytes

-- `(~sum + 1) & 0xff`, over the bit pattern of the int `sum`.
unfoldable pub checksum : List ℕ → ℕ → ℕ → ℕ → ℕ → ℕ
unfolding sum_bytes
checksum bytes length chunk_len chunk_addr chunk_type =
    let sum = chunk_len + lo chunk_addr + hi chunk_addr + chunk_type + sum_bytes length bytes in
    u8 (4294967295 - u32 sum + 1)

-- The length of the next record: 32 bytes at most, and not past the end of a block of 64k.
unfoldable pub chunk_length : ℕ → ℕ → ℕ
chunk_length stop chunk_start =
    let rest = sub32 stop chunk_start in
    let len = if ltb 32 rest then 32 else rest in
    if ltb 65535 (u16 chunk_start + len) then 65536 - u16 chunk_start else len

-- `accepts`: see `Stdio.Output`.
module _ (accepts : List ℕ → List ℕ → Bool) where
  -- "%02X" for each of `count` bytes.
  unfoldable pub write_bytes : ℕ → List ℕ → List ℕ → Io
  unfolding fprintf print_hex
  write_bytes zero bytes file = ok file
  write_bytes (suc count) [] file = fault
  write_bytes (suc count) (b ∷ bytes) file = do
    file' ← fprintf accepts file (print_hex 2 b)
    write_bytes count bytes file'

  -- An extended linear address record, if the block of 64k is not that of the last one.
  unfoldable pub write_ela : ℕ → ℕ → List ℕ → Io
  unfolding fprintf print_hex checksum
  write_ela cur_ela block file =
      if cur_ela == block
      then ok file
      else fprintf accepts file (
          b':'
          ∷ b'0'
          ∷ b'2'
          ∷ b'0'
          ∷ b'0'
          ∷ b'0'
          ∷ b'0'
          ∷ b'0'
          ∷ b'4'
          ∷ (print_hex 4 block
              ++ (print_hex 2 (checksum (hi block ∷ lo block ∷ []) 2 2 0 4) ++ (newline ∷ []))))

  -- One data record: `bytes` begins at `&buf[chunk_start - start]`.
  unfoldable pub write_data : ℕ → ℕ → List ℕ → List ℕ → Io
  unfolding fprintf fprintf_unchecked print_hex checksum write_bytes
  write_data chunk_len chunk_start bytes file = do
    let opened =
        fprintf_unchecked accepts file
          (b':' ∷ (print_hex 2 chunk_len ++ (print_hex 4 (u16 chunk_start) ++ (b'0' ∷ b'0' ∷ []))))
    file' ← write_bytes chunk_len bytes opened
    fprintf accepts file'
        (print_hex 2 (checksum bytes chunk_len chunk_len chunk_start 0) ++ (newline ∷ []))

  unfoldable pub write_end : List ℕ → Io
  unfolding fprintf
  write_end file =
      fprintf accepts file
        (b':' ∷ b'0' ∷ b'0' ∷ b'0' ∷ b'0' ∷ b'0' ∷ b'0' ∷ b'0' ∷ b'1' ∷ b'F' ∷ b'F' ∷ newline ∷ [])

  -- The `while` loop over `chunk_start`; `stop` is the parameter `end`. A round writes a byte at
  -- least, so `stop - chunk_start` rounds are enough.
  unfoldable pub write_loop : ℕ → List ℕ → ℕ → ℕ → ℕ → ℕ → List ℕ → Io
  unfolding write_ela write_data write_end chunk_length
  write_loop zero buf start stop cur_ela chunk_start file =
      if ltb chunk_start stop then stuck else write_end file
  write_loop (suc fuel) buf start stop cur_ela chunk_start file =
      let chunk_len = chunk_length stop chunk_start in
      let block = chunk_start >> 16 in
      let round = do
        with_ela ← write_ela cur_ela block file
        with_data ← write_data chunk_len chunk_start (drop (sub32 chunk_start start) buf) with_ela
        write_loop fuel buf start stop block (u32 (chunk_start + chunk_len)) with_data
      in if ltb chunk_start stop then round else write_end file

  -- `cur_ela` is an int: 4294967295 is the bit pattern of -1.
  unfoldable pub ihex_write : List ℕ → ℕ → ℕ → Io
  unfolding write_loop
  ihex_write buf start stop =
      let cur_ela : ℕ = if ltb 65535 stop then 4294967295 else 0 in
      write_loop (stop - start) buf start stop cur_ela start []
