-- ===== src/Srec.antt =====
-- srec.c: the Motorola S-record writer. The reader is `Srec.Reader`.
pub mod Reader
pub mod Text
pub mod Writer
pub mod Header
pub mod Record
pub mod Array
pub mod Line
pub mod Ends
pub mod Plain
pub mod Loop
pub mod RoundTrip
pub mod Safety
pub mod AnyChunk
pub mod AnyFile
mod Tests
use stm8flash.Common.{ℕ, zero, suc, ◌+◌, ◌-◌, ◌/◌, List, [], ◌∷◌, ◌++◌}
use stm8flash.Common.{Bool, ltb, leb, if◌then◌else◌, drop, u8, u16, u32, sub32}
use stm8flash.ByteUtils.{lo, hi, ex, eh}
use stm8flash.Stdio.{newline, print_hex}
use stm8flash.Stdio.Output.{Io, ok, fault, stuck, ◌>>=◌, fprintf_unchecked}

-- The bytes that a `for` loop over `length` bytes of an array adds up.
unfoldable pub sum_bytes : ℕ → List ℕ → ℕ
sum_bytes zero bytes = 0
sum_bytes (suc length) [] = 0
sum_bytes (suc length) (b ∷ bytes) = b + sum_bytes length bytes

-- `~sum & 0xff`, over the bit pattern of the int `sum`.
unfoldable pub srec_csum : List ℕ → ℕ → ℕ → ℕ → ℕ
unfolding sum_bytes
srec_csum bytes length chunk_len chunk_addr =
    let sum =
      chunk_len
      + lo chunk_addr
      + hi chunk_addr
      + ex chunk_addr
      + eh chunk_addr
      + sum_bytes length bytes in
    u8 (4294967295 - u32 sum)

-- The type of the data records, and the digits of their addresses, by the end of the range.
unfoldable pub data_rectype : ℕ → ℕ
data_rectype stop = if leb 65536 stop then (if leb 16777216 stop then 3 else 2) else 1

unfoldable pub addr_width : ℕ → ℕ
addr_width stop = if leb 65536 stop then (if leb 16777216 stop then 8 else 6) else 4

-- The length of the next record.
unfoldable pub chunk_length : ℕ → ℕ → ℕ
chunk_length stop chunk_start =
    let rest = sub32 stop chunk_start in if ltb 32 rest then 32 else rest

-- `accepts`: see `Stdio.Output`.
module _ (accepts : List ℕ → List ℕ → Bool) where
  -- "%02X" for each of `count` bytes.
  unfoldable pub write_bytes : ℕ → List ℕ → List ℕ → Io
  unfolding fprintf_unchecked print_hex
  write_bytes zero bytes file = ok file
  write_bytes (suc count) [] file = fault
  write_bytes (suc count) (b ∷ bytes) file =
      write_bytes count bytes (fprintf_unchecked accepts file (print_hex 2 b))

  -- One data record: `bytes` begins at `&buf[chunk_start - start]`.
  unfoldable pub write_data : ℕ → ℕ → ℕ → ℕ → List ℕ → List ℕ → Io
  unfolding fprintf_unchecked print_hex srec_csum write_bytes
  write_data kind width chunk_len chunk_start bytes file = do
    let len = chunk_len + width / 2 + 1
    let opened =
        fprintf_unchecked accepts file
          (b'S' ∷ (print_hex 1 kind ++ (print_hex 2 len ++ print_hex width chunk_start)))
    file' ← write_bytes chunk_len bytes opened
    ok (
        fprintf_unchecked accepts file'
          (print_hex 2 (srec_csum bytes chunk_len len chunk_start) ++ (newline ∷ [])))

  -- The S5 record with the number of data records, and the record at the end.
  unfoldable pub write_end : ℕ → ℕ → ℕ → List ℕ → List ℕ → List ℕ
  unfolding fprintf_unchecked print_hex srec_csum
  write_end kind width num_records buf file =
      let num = u16 num_records in
      let len = width / 2 + 1 in
      let file1 = fprintf_unchecked accepts file (b'S' ∷ b'5' ∷ b'0' ∷ b'3' ∷ print_hex 4 num) in
      let file2 =
        fprintf_unchecked accepts file1 (print_hex 2 (srec_csum buf 0 3 num) ++ (newline ∷ [])) in
      let file3 =
        fprintf_unchecked accepts file2
          (b'S' ∷ (print_hex 1 (10 - kind) ++ (print_hex 2 len ++ print_hex width 0))) in
      fprintf_unchecked accepts file3 (print_hex 2 (srec_csum buf 0 len 0) ++ (newline ∷ []))

  -- The `while` loop over `chunk_start`, and what follows it; `stop` is the parameter `end`. A
  -- round writes a byte at least, so `stop - chunk_start` rounds are enough.
  unfoldable pub write_loop : ℕ → List ℕ → ℕ → ℕ → ℕ → ℕ → List ℕ → Io
  unfolding write_data write_end data_rectype addr_width chunk_length
  write_loop zero buf start stop num_records chunk_start file =
      if ltb chunk_start stop
      then stuck
      else ok (write_end (data_rectype stop) (addr_width stop) num_records buf file)
  write_loop (suc fuel) buf start stop num_records chunk_start file =
      let chunk_len = chunk_length stop chunk_start in
      let round = do
        with_data ←
            write_data (data_rectype stop) (addr_width stop) chunk_len chunk_start
              (drop (sub32 chunk_start start) buf) file
        write_loop fuel buf start stop (u32 (num_records + 1)) (u32 (chunk_start + chunk_len))
            with_data
      in if ltb chunk_start stop
        then round
        else ok (write_end (data_rectype stop) (addr_width stop) num_records buf file)

  unfoldable pub srec_write : List ℕ → ℕ → ℕ → Io
  unfolding write_loop fprintf_unchecked
  srec_write buf start stop = write_loop (stop - start) buf start stop 0 start (
      fprintf_unchecked accepts []
        (b'S' ∷ b'0' ∷ b'0' ∷ b'3' ∷ b'0' ∷ b'0' ∷ b'0' ∷ b'0' ∷ b'F' ∷ b'C' ∷ newline ∷ []))
