-- ===== src/Ihex/Tests.antt =====
-- Runs of the Intel hex writer and reader of ihex.c, and their theorems at concrete inputs.
use stm8flash.Common.{ℕ, ◌+◌, ◌≤◌, List, [], ◌∷◌, ◌++◌, ◌≡◌, ◌≢◌, refl, Bool, true, arith}
use stm8flash.Common.{replicate, length, codes, leb}
use stm8flash.Stdio.{newline, strip_zeros, hex_digits, hex_digit, store_line, strlen}
use stm8flash.Stdio.Output.{ok, io_error, stuck}
use stm8flash.Ihex.{ihex_write, chunk_length}
use stm8flash.Ihex.Reader.{
  returned, parse_error, past_end, fault, go, strip_cr, scan_header, scan_offset, data_loop,
}
use stm8flash.Ihex.Reader.{read_record, read_line, ihex_read}
use stm8flash.Ihex.Text.{data_line}
use stm8flash.Ihex.Record.{reader, strip_cr_lem}
use stm8flash.Ihex.Line.{read_line-data_line, next_array}
use stm8flash.Ihex.Writer.{chunk_length_bounds, ihex_write-ne-stuck}
use stm8flash.Ihex.RoundTrip.{ihex_read-ihex_write}
use stm8flash.Ihex.AnyFile.{IsResult, ihex_read-IsResult}

abbrev always : List ℕ → List ℕ → Bool
always file text = true

-- A disk of 20 characters.
abbrev small_disk : List ℕ → List ℕ → Bool
small_disk file text = leb (length (file ++ text)) 20

abbrev three_bytes : List ℕ
three_bytes = 1 ∷ 2 ∷ 255 ∷ []

abbrev blank_line : List ℕ
blank_line = replicate 523 0

abbrev bad_file : List ℕ
bad_file = codes ":0200000401" ++ (newline ∷ [])

-- Extended linear address 0xFFFF, then a record of two bytes at 0xFFFF of that block.
abbrev wrapping_file : List ℕ
wrapping_file = codes ":02000004FFFFFC" ++ (newline ∷ (codes ":02FFFF000102FD" ++ (newline ∷ [])))

write_full_disk : ihex_write small_disk three_bytes 32768 32771 ≡ io_error
unfolding ihex_write strip_zeros hex_digits hex_digit
write_full_disk = refl

read_short_record :
    ihex_read 32768 32896 blank_line (codes ":0000") (replicate 128 0) ≡ parse_error 1
unfolding ihex_read scan_header strip_cr store_line strlen
read_short_record = refl

read_other_range : ihex_read 0 16 blank_line (codes ":02000F000102EC") (replicate 16 0) ≡ past_end 1
unfolding ihex_read scan_header strip_cr store_line strlen read_record scan_offset data_loop
read_other_range = refl

read_wrapping : ihex_read 0 16 blank_line wrapping_file (replicate 16 0) ≡ fault
unfolding ihex_read scan_header strip_cr store_line strlen read_record scan_offset data_loop
read_wrapping = refl

ihex_read-ihex_write_example :
    (file : List ℕ) × (ihex_write always three_bytes 65535 65538 ≡ ok file)
    × (ihex_read 65535 65538 blank_line file (replicate 4 7) ≡ returned 3 (1 ∷ 2 ∷ 255 ∷ 7 ∷ []))
ihex_read-ihex_write_example =
    ihex_read-ihex_write always three_bytes 65535 65538 blank_line (replicate 4 7) (λ f t. refl)
      refl (omega arith) (omega arith) (omega arith) (omega arith)

ihex_write-ne-stuck_example : ihex_write small_disk three_bytes 65535 65538 ≢ stuck
ihex_write-ne-stuck_example = ihex_write-ne-stuck small_disk three_bytes 65535 65538 (omega arith)

chunk_length_bounds_example :
    (1 ≤ chunk_length 65600 65530)
    × (chunk_length 65600 65530 ≤ 32)
    × (65530 + chunk_length 65600 65530 ≤ 65600)
    × (65530 + chunk_length 65600 65530 ≤ 65536)
chunk_length_bounds_example = chunk_length_bounds 65600 65530 (omega arith) (omega arith)

ihex_read-IsResult_example :
    IsResult 0 16 16 wrapping_file
      (reader blank_line 0 0 0 (replicate 16 0))
      (ihex_read 0 16 blank_line wrapping_file (replicate 16 0))
ihex_read-IsResult_example =
    ihex_read-IsResult 0 16 blank_line wrapping_file (replicate 16 0) (omega arith) (omega arith)
      refl (omega arith)

strip_cr_lem_example : strip_cr (58 ∷ 48 ∷ 13 ∷ 10 ∷ 0 ∷ []) ≡ 58 ∷ 48 ∷ 13 ∷ 10 ∷ 0 ∷ []
strip_cr_lem_example = strip_cr_lem (58 ∷ 48 ∷ 13 ∷ 10 ∷ 0 ∷ [])

read_line-data_line_example :
    read_line 32768 32896
      (data_line 32769 (7 ∷ 8 ∷ []) ++ (newline ∷ []))
      (reader blank_line 0 0 0 (1 ∷ 2 ∷ 3 ∷ 4 ∷ []))
    ≡ go (
        reader
          (next_array (data_line 32769 (7 ∷ 8 ∷ [])) blank_line)
          1
          32771
          0
          (1 ∷ 7 ∷ 8 ∷ 4 ∷ []))
read_line-data_line_example =
    read_line-data_line 32768 32896 32769 7 (8 ∷ []) blank_line 0 0 0 (1 ∷ []) (2 ∷ 3 ∷ 4 ∷ [])
      (omega arith) (omega arith) (omega arith) (omega arith) (omega arith) (omega arith)
      (omega arith) (omega arith)
