-- ===== src/Ihex/Line.antt =====
-- The lines that the writer of ihex.c writes, through ihex_read.
use stm8flash.Stdio.Bytes.{IsByte, hex_bytes}
use stm8flash.Common.{ℕ, suc, ◌+◌, ◌*◌, ◌/◌, ◌%◌, ◌≤◌, ◌<◌, ◌≡◌, ◌≢◌, refl, ap, ap₂, ◌∙◌}
use stm8flash.Common.{
  List, [], ◌∷◌, ◌++◌, append_assoc, some, inl, inr, arith, Bool-cases, ltb, ltb→lt,
}
use stm8flash.Common.{drop, length, All, All-append, All-map, length-append, u16, u32}
use stm8flash.Stdio.{newline, hex_digit, hex_digits, scan_hex, strlen, store_line}
use stm8flash.Stdio.Print.{scan_hex-byte, scan_hex-word}
use stm8flash.Stdio.Lines.{IsPlain, strlen-append}
use stm8flash.Ihex.{checksum}
use stm8flash.Ihex.Text.{data_line, ela_line, end_line, checksum-IsByte}
use stm8flash.Ihex.Reader.{Reader, Header, go, strip_cr, scan_header, scan_offset}
use stm8flash.Ihex.Reader.{data_byte, data_loop, last_index, read_record, read_line}
use stm8flash.Ihex.Record.{strip_cr_lem, scan_header_lem, reader, data_header}
use stm8flash.Ihex.Record.{data_loop_record, data_loop_leave}
use stm8flash.Ihex.Plain.{data_line-IsPlain, length-data_line}

-- A line whose header is read goes on to its record.
pub read_line_record :
    (start end : ℕ) (text : List ℕ) (r : Reader) (h : Header)
    → scan_header (store_line text r.line) ≡ some h
    → read_line start end text r
      ≡ read_record start end h
          (record r { line = store_line text r.line; line_no = u32 (r.line_no + 1) })
unfolding read_line
read_line_record start end text r h e =
    rw (strip_cr_lem (store_line text r.line), e, read_line)
      (ap (λ t. read_record start end h (record r { line = t; line_no = u32 (r.line_no + 1) }))
        (strip_cr_lem (store_line text r.line)))

-- `strlen(line) - 1` is the index of the newline.
last_index_lem :
    (l old : List ℕ)
    → All IsPlain l
    → length l < 1000
    → last_index (store_line (l ++ (newline ∷ [])) old) ≡ length l
unfolding store_line
last_index_lem l old h short = omega (
  arith,
  strlen-append (l ++ (newline ∷ [])) (drop (length (l ++ (newline ∷ [])) + 1) old) (
      All-append (λ c. c ≢ 0) l (newline ∷ []) (All-map l (λ c p. p.0) h)
        (λ e. absurd (omega arith), tt)),
  length-append l (newline ∷ []),
)

-- The line of a data record as the array holds it.
data_line-array :
    (addr : ℕ) (bytes old : List ℕ)
    → (tail : List ℕ) × (store_line (data_line addr bytes ++ (newline ∷ [])) old
        ≡ b':'
          ∷ (hex_digits 2 (length bytes)
              ++ (hex_digits 4 (u16 addr)
                  ++ (hex_digits 2 0
                      ++ (hex_bytes bytes
                          ++ (hex_digits 2 (checksum bytes (length bytes) (length bytes) addr 0)
                              ++ tail))))))
unfolding store_line data_line hex_digits hex_digit
data_line-array addr bytes old = (
  newline ∷ 0 ∷ drop (length (data_line addr bytes ++ (newline ∷ [])) + 1) old,
  simp append_assoc,
)

abbrev pub next_array : List ℕ → List ℕ → List ℕ
next_array l line = store_line (l ++ (newline ∷ [])) line

read_record_data :
    (start end len addr : ℕ) (r : Reader)
    → read_record start end (data_header len addr) r
      ≡ data_loop start end (data_header len addr) (last_index r.line) (drop 9 r.line) 9 r
unfolding read_record scan_offset
read_record_data start end len addr r = refl

drop_head :
    (a b c : ℕ) (s : List ℕ)
    → drop 9 (b':' ∷ (hex_digits 2 a ++ (hex_digits 4 b ++ (hex_digits 2 c ++ s)))) ≡ s
unfolding hex_digits
drop_head a b c s = refl

-- A data record of the writer, of 1 to 255 bytes inside the range, whose block of 64k is set:
-- ihex_read puts its bytes at their place and changes no other, if the buffer has room for them,
-- and goes on with the next line.
pub read_line-data_line :
    (start end addr : ℕ) (b : ℕ) (ds line : List ℕ) (count g off : ℕ) (pre old : List ℕ)
    → u16 addr + off ≡ addr
    → start + length pre ≡ addr
    → length (b ∷ ds) < 256
    → All IsByte (b ∷ ds)
    → addr + length (b ∷ ds) ≤ end
    → end < 4294967296
    → g ≤ addr + length (b ∷ ds)
    → length (b ∷ ds) ≤ length old
    → read_line start end
        (data_line addr (b ∷ ds) ++ (newline ∷ []))
        (reader line count g off (pre ++ old))
      ≡ go (
          reader
            (next_array (data_line addr (b ∷ ds)) line)
            (u32 (count + 1))
            (u16 addr + off + length (b ∷ ds))
            off
            ((pre ++ (b ∷ ds)) ++ drop (length (b ∷ ds)) old))
read_line-data_line start end addr b ds line count g off pre [] eo ep short hb high small hg ho =
    absurd (omega arith)
read_line-data_line start end addr b ds line count g off pre (o ∷ old) eo ep short hb high small hg
      ho =
    read_line_record start end (l ++ (newline ∷ [])) r (data_header len (u16 addr)) header
    ∙ read_record_data start end len (u16 addr) r'
    ∙ ap₂ (λ n t. data_loop start end (data_header len (u16 addr)) n t 9 r')
        (last_index_lem l line (data_line-IsPlain addr (b ∷ ds)) (omega (arith, size)))
        (ap (drop 9) array.1 ∙ drop_head len (u16 addr) 0 _)
    ∙ data_loop_record start end len (u16 addr) (length l) (next_array l line) (u32 (count + 1)) off
        (omega arith) (omega arith) small b (checksum (b ∷ ds) len len addr 0) g ds pre o old
        array.0 refl (omega (arith, size)) (checksum-IsByte (b ∷ ds) len len addr 0) hb
        (omega arith) (omega arith) (omega arith)
  where
    len : ℕ
    len = length (b ∷ ds)

    l : List ℕ
    l = data_line addr (b ∷ ds)

    r : Reader
    r = reader line count g off (pre ++ (o ∷ old))

    r' : Reader
    r' = reader (next_array l line) (u32 (count + 1)) g off (pre ++ (o ∷ old))

    size : length l ≡ 11 + 2 * len
    size = length-data_line addr (b ∷ ds)

    array :
        (tail : List ℕ) × (store_line (l ++ (newline ∷ [])) line
          ≡ b':'
            ∷ (hex_digits 2 len
                ++ (hex_digits 4 (u16 addr)
                    ++ (hex_digits 2 0
                        ++ (hex_bytes (b ∷ ds)
                            ++ (hex_digits 2 (checksum (b ∷ ds) len len addr 0) ++ tail))))))
    array = data_line-array addr (b ∷ ds) line

    header : scan_header (next_array l line) ≡ some (data_header len (u16 addr))
    header =
        ap scan_header array.1
        ∙ scan_header_lem len (u16 addr) 0 _ short (omega arith) (omega arith)

ela_line-array :
    (block : ℕ) (old : List ℕ)
    → (tail : List ℕ) × (store_line (ela_line block ++ (newline ∷ [])) old
        ≡ b':'
          ∷ (hex_digits 2 2
              ++ (hex_digits 4 0 ++ (hex_digits 2 4 ++ (hex_digits 4 block ++ tail)))))
unfolding store_line ela_line hex_digits hex_digit
ela_line-array block old = (_, refl)

scan_hex-first_byte :
    (n : ℕ) (s : List ℕ)
    → n < 65536
    → scan_hex 2 (hex_digit (n / 16 / 16 / 16 % 16) ∷ hex_digit (n / 16 / 16 % 16) ∷ s)
      ≡ some (n / 256, s)
unfolding hex_digits
scan_hex-first_byte n s h =
    ap₂ (λ a b. scan_hex 2 (hex_digit a ∷ hex_digit b ∷ s)) high low
    ∙ scan_hex-byte (n / 256) s (omega arith)
  where
    high : n / 16 / 16 / 16 % 16 ≡ n / 256 / 16 % 16
    high = omega arith

    low : n / 16 / 16 % 16 ≡ n / 256 % 16
    low = omega arith

-- The loop leaves a record of another type at once, if a byte can be read at all.
data_loop_other :
    (start end kind len addr limit n : ℕ) (tail : List ℕ) (h : n < 65536) (r : Reader)
    → data_loop start end
        (record { chunk_len = len; chunk_addr = addr; chunk_type = suc kind })
        limit
        (hex_digits 4 n ++ tail)
        9
        r
      ≡ go r
unfolding data_loop hex_digits data_byte
data_loop_other start end kind len addr limit n tail h r = elim (Bool-cases (ltb 9 limit)) [
  | inl more ↦
      data_loop_leave start end
        (record { chunk_len = len; chunk_addr = addr; chunk_type = suc kind }) limit
        (hex_digit (n / 16 / 16 / 16 % 16)) (hex_digit (n / 16 / 16 % 16)) 9 (n / 256) _ _ r
        (ltb→lt 9 limit more)
        (scan_hex-first_byte n (hex_digit (n / 16 % 16) ∷ hex_digit (n % 16) ∷ tail) h)
        (ground arith)
  | inr done ↦ rw (done, data_loop)
]

read_record_ela :
    (start end block : ℕ) (tail line : List ℕ) (count g off : ℕ) (buf : List ℕ)
    → block < 65536
    → drop 9 line ≡ hex_digits 4 block ++ tail
    → read_record start end
        (record { chunk_len = 2; chunk_addr = 0; chunk_type = 4 })
        (reader line count g off buf)
      ≡ go (reader line count g (block * 65536) buf)
unfolding read_record scan_offset
read_record_ela start end block tail line count g off buf hb e =
    rw (e, scan_hex-word block tail hb, u32_block)
      (ap
          (λ t.
            data_loop start end head (last_index line) t 9
              (reader line count g (block * 65536) buf))
          e
        ∙ data_loop_other start end 3 2 0 (last_index line) block tail hb
            (reader line count g (block * 65536) buf))
  where
    head : Header
    head = record { chunk_len = 2; chunk_addr = 0; chunk_type = 4 }

    u32_block : u32 (block * 65536) ≡ block * 65536
    u32_block = omega arith

-- An extended linear address record of the writer sets the offset to its block.
pub read_line-ela_line :
    (start end block : ℕ) (line : List ℕ) (count g off : ℕ) (buf : List ℕ)
    → block < 65536
    → read_line start end (ela_line block ++ (newline ∷ [])) (reader line count g off buf)
      ≡ go (reader (next_array (ela_line block) line) (u32 (count + 1)) g (block * 65536) buf)
read_line-ela_line start end block line count g off buf hb =
    let (tail, array) = ela_line-array block line in
    read_line_record start end (ela_line block ++ (newline ∷ [])) (reader line count g off buf)
      (record { chunk_len = 2; chunk_addr = 0; chunk_type = 4 })
      (ap scan_header array
        ∙ scan_header_lem 2 0 4 (hex_digits 4 block ++ tail) (omega arith) (omega arith)
            (omega arith))
    ∙ read_record_ela start end block tail (next_array (ela_line block) line) (u32 (count + 1)) g
        off buf hb (ap (drop 9) array ∙ drop_head 2 0 4 _)

-- The record at the end of the file changes nothing.
pub read_line-end_line :
    (start end : ℕ) (line : List ℕ) (count g off : ℕ) (buf : List ℕ)
    → read_line start end (end_line ++ (newline ∷ [])) (reader line count g off buf)
      ≡ go (reader (next_array end_line line) (u32 (count + 1)) g off buf)
unfolding end_line read_line store_line strip_cr scan_header read_record scan_offset data_loop
    strlen
read_line-end_line start end line count g off buf = refl
