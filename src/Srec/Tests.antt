-- ===== src/Srec/Tests.antt =====
-- Runs of the S-record writer and reader of srec.c, and their theorems at concrete inputs.
use stm8flash.Common.{
  ℕ, ◌+◌, ◌≤◌, List, [], ◌∷◌, ◌++◌, ◌≡◌, ◌≢◌, ◌⊎◌, inl, refl, Bool, true, false, arith,
}
use stm8flash.Common.{replicate, length, codes, leb}
use stm8flash.Stdio.{newline, fgets, scan_char, scan_hex, store_line}
use stm8flash.Stdio.Output.{ok, stuck}
use stm8flash.Srec.{srec_write, chunk_length}
use stm8flash.Srec.Reader.{
  returned, fault, go, bad_checksum, scan_header, data_loop, read_chunk, read_record,
}
use stm8flash.Srec.Reader.{check_sum, header_sum, read_line, read_loop, srec_read}
use stm8flash.Srec.Text.{srec_line}
use stm8flash.Srec.Header.{reader}
use stm8flash.Srec.Line.{read_line-srec_line}
use stm8flash.Srec.Array.{next_array}
use stm8flash.Srec.Writer.{chunk_length-le, srec_write-ne-stuck}
use stm8flash.Srec.RoundTrip.{srec_read-srec_write, srec_read-wide}
use stm8flash.Srec.AnyFile.{IsResult, srec_read-IsResult}

abbrev always : List ℕ → List ℕ → Bool
always file text = true

-- A disk of 20 characters.
abbrev small_disk : List ℕ → List ℕ → Bool
small_disk file text = leb (length (file ++ text)) 20

abbrev three_bytes : List ℕ
three_bytes = 1 ∷ 2 ∷ 255 ∷ []

abbrev blank_line : List ℕ
blank_line = replicate 516 0

-- One record of three bytes at 0x10000.
abbrev wide_file : List ℕ
wide_file = codes "S2070100000102FFF5" ++ (newline ∷ [])

-- The last of the three bytes does not fit a buffer of three.
read_wide_exact : srec_read 65536 65539 blank_line wide_file (replicate 3 0) ≡ fault
unfolding srec_read read_loop fgets read_line scan_header scan_char store_line scan_hex read_record
    read_chunk data_loop
read_wide_exact = refl

read_bad_checksum :
    srec_read 0 16 blank_line (codes "S1050001AABB00" ++ (newline ∷ [])) (replicate 16 0)
    ≡ bad_checksum 1
unfolding srec_read read_loop fgets read_line scan_header scan_char store_line scan_hex read_record
    read_chunk data_loop check_sum header_sum
read_bad_checksum = refl

srec_read-srec_write_example :
    (file : List ℕ) × (srec_write always three_bytes 32768 32771 ≡ ok file)
    × (srec_read 32768 32771 blank_line file (replicate 4 7) ≡ returned 3 (1 ∷ 2 ∷ 255 ∷ 7 ∷ []))
srec_read-srec_write_example =
    srec_read-srec_write always three_bytes 32768 32771 blank_line (replicate 4 7) (λ f t. refl)
      refl (omega arith) (omega arith) (omega arith) (omega arith)

srec_read-wide_example :
    (file : List ℕ) × (srec_write always three_bytes 65536 65539 ≡ ok file)
    × (srec_read 65536 65539 blank_line file (7 ∷ 7 ∷ 7 ∷ 7 ∷ 7 ∷ [])
        ≡ returned 3 (7 ∷ 1 ∷ 2 ∷ 255 ∷ 7 ∷ []))
srec_read-wide_example =
    srec_read-wide always three_bytes 65536 65539 blank_line (7 ∷ []) (7 ∷ 7 ∷ 7 ∷ 7 ∷ [])
      (λ f t. refl) refl (omega arith) (omega arith) (omega arith) (omega arith) (omega arith) refl
      (omega arith)

srec_write-ne-stuck_example : srec_write small_disk three_bytes 65535 65538 ≢ stuck
srec_write-ne-stuck_example = srec_write-ne-stuck small_disk three_bytes 65535 65538 (omega arith)

chunk_length-le_example :
    (1 ≤ chunk_length 65600 65590)
    × (chunk_length 65600 65590 ≤ 32)
    × (65590 + chunk_length 65600 65590 ≤ 65600)
    × ((chunk_length 65600 65590 ≡ 32) ⊎ (65590 + chunk_length 65600 65590 ≡ 65600))
chunk_length-le_example = chunk_length-le 65600 65590 (omega arith) (omega arith)

srec_read-IsResult_example :
    IsResult 65536 65539 3 wide_file
      (reader blank_line 0 0 0 false 0 32 (replicate 3 0))
      (srec_read 65536 65539 blank_line wide_file (replicate 3 0))
srec_read-IsResult_example =
    srec_read-IsResult 65536 65539 blank_line wide_file (replicate 3 0) (omega arith) (omega arith)
      refl (omega arith)

read_line-srec_line_example :
    read_line 32768 32896
      (srec_line 1 32769 (7 ∷ 8 ∷ []) ++ (newline ∷ []))
      (reader blank_line 0 0 0 false 0 32 (1 ∷ 2 ∷ 3 ∷ 4 ∷ []))
    ≡ go (
        reader
          (next_array (srec_line 1 32769 (7 ∷ 8 ∷ [])) blank_line)
          1
          32771
          1
          false
          0
          32
          (1 ∷ 7 ∷ 8 ∷ 4 ∷ []))
read_line-srec_line_example =
    read_line-srec_line 32768 32896 1 32769 7 (8 ∷ []) blank_line 0 0 0 false 0 32 (1 ∷ [])
      (2 ∷ 3 ∷ 4 ∷ []) (inl refl) (omega arith) (omega arith) (omega arith) (omega arith)
      (omega arith) (omega arith) (omega arith) (omega arith) (omega arith)
