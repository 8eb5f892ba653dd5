-- ===== src/Srec/Ends.antt =====
-- The lines around the data records of an S-record file, through srec_read.
use stm8flash.Common.{ℕ, ◌+◌, ◌*◌, ◌<◌, ◌≡◌, refl, ap, ◌∙◌}
use stm8flash.Common.{List, [], ◌∷◌, ◌++◌, Bool, true, false, some, arith}
use stm8flash.Common.{drop, length, length-append, u8, u32, ◌>>◌}
use stm8flash.Stdio.{newline, hex_digit, hex_digits, scan_digits, scan_hex, scan_char, store_line}
use stm8flash.Stdio.Print.{
  length-hex_digits, scan_hex-byte, scan_hex-hex_digits, scan_digits-hex_digits,
}
use stm8flash.Srec.{sum_bytes, srec_csum}
use stm8flash.Srec.Text.{IsKind, by_kind, header_line, count_line, end_line, srec_csum-IsByte}
use stm8flash.Srec.Reader.{Reader, Chunk, go, scan_header, read_line, read_record, is_data_type}
use stm8flash.Srec.Reader.{header_sum, read_chunk}
use stm8flash.Srec.Record.{data_loop_done}
use stm8flash.Srec.Header.{scan_header_lem, reader}
use stm8flash.Srec.Line.{read_line_record, read_chunk_summed}
use stm8flash.Srec.Array.{next_array}

count_line-array :
    (num : ℕ) (old : List ℕ)
    → (tail : List ℕ) × (next_array (count_line num) old
        ≡ b'S'
          ∷ (hex_digits 1 5
              ++ (hex_digits 2 3
                  ++ (hex_digits 4 num
                      ++ (hex_digits 2 (srec_csum [] 0 3 num) ++ (newline ∷ tail))))))
unfolding store_line count_line hex_digits hex_digit
count_line-array num old = (_, refl)

-- The two digits of the checksum are read as a part of the number.
scan_count :
    (num c : ℕ) (s : List ℕ)
    → num < 65536
    → c < 256
    → scan_hex 8 (hex_digits 4 num ++ (hex_digits 2 c ++ (newline ∷ s)))
      ≡ some (num * 256 + c, newline ∷ s)
unfolding scan_digits
scan_count num c s hn hc =
    scan_hex-hex_digits 2 4 num (hex_digits 2 c ++ (newline ∷ s)) (omega arith)
    ∙ rw (scan_digits-hex_digits 2 2 num c (newline ∷ s) (omega arith))
        (ap (λ t. some (t, newline ∷ s)) (omega arith))

count_sum : (num : ℕ) → u8 (header_sum 3 num + srec_csum [] 0 3 num) ≡ 255
unfolding srec_csum header_sum sum_bytes
count_sum num = omega arith

drop_count :
    (num : ℕ) (s : List ℕ)
    → drop 8 (b'S' ∷ (hex_digits 1 5 ++ (hex_digits 2 3 ++ (hex_digits 4 num ++ s)))) ≡ s
unfolding hex_digits
drop_count num s = refl

abbrev count_chunk : ℕ → Chunk
count_chunk num = record {
  chunk_type = 1;
  chunk_addr = num;
  chunk_len = 3;
  data_len = 0;
  data_record = false;
}

module _ (start end : ℕ) (line : List ℕ) (count g records : ℕ) where
  pub read_line-header_line :
      (found : Bool) (expected temp : ℕ) (buf : List ℕ)
      → read_line start end
          (header_line ++ (newline ∷ []))
          (reader line count g records found expected temp buf)
        ≡ go (
            reader
              (next_array header_line line)
              (u32 (count + 1))
              g
              records
              found
              expected
              temp
              buf)
  unfolding read_line header_line store_line scan_header scan_char read_record scan_hex
  read_line-header_line found expected temp buf = refl

  pub read_line-end_line :
      (kind : ℕ) (found : Bool) (expected temp : ℕ) (buf : List ℕ)
      → IsKind kind
      → read_line start end
          (end_line kind ++ (newline ∷ []))
          (reader line count g records found expected temp buf)
        ≡ go (
            reader
              (next_array (end_line kind) line)
              (u32 (count + 1))
              g
              records
              found
              expected
              temp
              buf)
  unfolding read_line end_line store_line scan_header scan_char read_record is_data_type hex_digits
      hex_digit srec_csum sum_bytes scan_hex
  read_line-end_line kind found expected temp buf k =
      by_kind
        (λ kind.
          read_line start end (end_line kind ++ (newline ∷ []))
            (reader line count g records found expected temp buf)
          ≡ go (
              reader (next_array (end_line kind) line) (u32 (count + 1)) g records found expected
                temp buf))
        refl refl refl kind k

  read_record_count :
      (num value : ℕ) (r : Reader)
      → value >> 8 ≡ num
      → read_record start end (record { kind = 5; len = 3; addr = value }) r
        ≡ read_chunk start end
            (count_chunk num)
            (record r { found_s5_rec = true; expected_data_records = num })
  unfolding read_record
  read_record_count num value r e =
      ap
        (λ t.
          read_chunk start end (count_chunk t)
            (record r { found_s5_rec = true; expected_data_records = t }))
        e

  -- The count of the data records is kept.
  pub read_line-count_line :
      (num : ℕ) (found : Bool) (expected temp : ℕ) (buf : List ℕ)
      → num < 65536
      → read_line start end
          (count_line num ++ (newline ∷ []))
          (reader line count g records found expected temp buf)
        ≡ go (
            reader (next_array (count_line num) line) (u32 (count + 1)) g records true num temp buf)
  read_line-count_line num found expected temp buf small =
      read_line_record start end (count_line num ++ (newline ∷ []))
        (reader line count g records found expected temp buf)
        (record { kind = 5; len = 3; addr = num * 256 + csum }) header
      ∙ read_record_count num (num * 256 + csum)
          (reader next_line (u32 (count + 1)) g records found expected temp buf)
          (omega (arith, csum-IsByte))
      ∙ read_chunk_summed start end (count_chunk num) 8 8 (header_sum 3 num) csum
          (newline ∷ array.0) (reader next_line (u32 (count + 1)) g records true num temp buf)
          (reader next_line (u32 (count + 1)) g records true num temp buf) refl refl
          (data_loop_done start end (count_chunk num) 8 _ 8 (header_sum 3 num) _ (omega arith)) room
          (ap (scan_hex 2) (ap (drop 8) array.1 ∙ drop_count num _)
            ∙ scan_hex-byte csum _ csum-IsByte)
          (count_sum num)
    where
      csum : ℕ
      csum = srec_csum [] 0 3 num

      csum-IsByte : csum < 256
      csum-IsByte = srec_csum-IsByte [] 0 3 num

      next_line : List ℕ
      next_line = next_array (count_line num) line

      array :
          (tail : List ℕ) × (next_line
            ≡ b'S'
              ∷ (hex_digits 1 5
                  ++ (hex_digits 2 3
                      ++ (hex_digits 4 num ++ (hex_digits 2 csum ++ (newline ∷ tail))))))
      array = count_line-array num line

      header : scan_header next_line ≡ some (record { kind = 5; len = 3; addr = num * 256 + csum })
      header =
          ap scan_header array.1
          ∙ scan_header_lem 5 3 (num * 256 + csum) _ _ (omega arith) (omega arith)
              (scan_count num csum array.0 small csum-IsByte)

      size : length next_line ≡ 11 + length array.0
      size = ap length array.1 ∙ simp (length-append {0}, length-hex_digits) (omega arith)

      room : 8 < length next_line
      room = omega (arith, size)
