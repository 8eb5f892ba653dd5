-- ===== src/Srec/Line.antt =====
-- The lines that the writer of srec.c writes, through srec_read.
use stm8flash.Common.{ℕ, ◌+◌, ◌-◌, ◌*◌, ◌^◌, ◌≤◌, ◌<◌, ◌≡◌, refl, sym, ap, ap₂, ◌∙◌}
use stm8flash.Common.{List, [], ◌∷◌, ◌++◌, Bool, true, some, arith}
use stm8flash.Common.{
  if◌then◌else◌, lt→ltb, ==_iff, drop, length, All, length-append, drop-append_length, drop-drop,
}
use stm8flash.Common.{u8, u32, ◌>>◌}
use stm8flash.Stdio.{newline, hex_digits, scan_hex, store_line}
use stm8flash.Stdio.Print.{scan_hex-byte, length-hex_digits}
use stm8flash.Stdio.Bytes.{IsByte, hex_bytes, length-hex_bytes}
use stm8flash.Srec.{sum_bytes, srec_csum}
use stm8flash.Srec.Text.{IsKind, digits_of, by_kind, srec_line, srec_csum-IsByte}
use stm8flash.Srec.Reader.{Reader, Chunk, Header, summed, go, scan_header, read_line, read_record}
use stm8flash.Srec.Reader.{header_sum, data_loop, check_sum, end_index, read_chunk, is_data_type}
use stm8flash.Srec.Record.{data_loop_record}
use stm8flash.Srec.Header.{scan_address, scan_header_lem, reader, data_chunk}
use stm8flash.Srec.Array.{
  next_array, array_of, srec_line-array, two_bytes, drop_head, check_sum-srec_csum,
}

module _ (start end : ℕ) where
  read_record_data :
      (kind value addr n : ℕ) (r : Reader)
      → IsKind kind
      → value >> (8 * (3 - kind)) ≡ addr
      → n < 256
      → read_record start end (record { kind = kind; len = n + kind + 2; addr = value }) r
        ≡ read_chunk start end (data_chunk kind addr n) r
  unfolding read_record is_data_type
  read_record_data kind value addr n r k ev hn =
      by_kind
        (λ kind.
          value >> (8 * (3 - kind)) ≡ addr
          → read_record start end (record { kind = kind; len = n + kind + 2; addr = value }) r
            ≡ read_chunk start end (data_chunk kind addr n) r)
        (λ e. chunk_eq 1 _ _ e (omega arith)) (λ e. chunk_eq 2 _ _ e (omega arith))
        (λ e. chunk_eq 3 _ _ e (omega arith)) kind k ev
    where
      chunk_eq :
          (kind a m : ℕ)
          → a ≡ addr
          → m ≡ n
          → read_chunk start end
              (record {
                chunk_type = kind;
                chunk_addr = a;
                chunk_len = n + kind + 2;
                data_len = m;
                data_record = true;
              })
              r
            ≡ read_chunk start end (data_chunk kind addr n) r
      chunk_eq kind a m ea em =
          ap₂
            (λ a m.
              read_chunk start end
                (record {
                  chunk_type = kind;
                  chunk_addr = a;
                  chunk_len = n + kind + 2;
                  data_len = m;
                  data_record = true;
                })
                r)
            ea em

  -- A line whose header is read goes on to its record.
  pub read_line_record :
      (text : List ℕ) (r : Reader) (h : Header)
      → scan_header (store_line text r.line) ≡ some h
      → read_line start end text r
        ≡ read_record start end h
            (record r { line = store_line text r.line; line_no = u32 (r.line_no + 1) })
  unfolding read_line
  read_line_record text r h e = rw (e, read_line)

  check_sum_good :
      (k : Chunk) (i sum byte : ℕ) (t : List ℕ) (r : Reader)
      → i < length r.line
      → scan_hex 2 (drop i r.line) ≡ some (byte, t)
      → u8 (sum + byte) ≡ 255
      → check_sum k i sum r
        ≡ go (record r {
          number_of_records =
              if k.data_record then u32 (r.number_of_records + 1) else r.number_of_records;
        })
  unfolding check_sum
  check_sum_good k i sum byte t r inside hs hb =
      rw (lt→ltb i (length r.line) inside, hs, (==_iff (u8 (sum + byte)) 255).1 hb, check_sum)

  pub read_chunk_summed :
      (k : Chunk) (i first sum byte : ℕ) (t : List ℕ) (r r' : Reader)
      → end_index k ≡ i
      → first ≡ 2 * (k.chunk_type + 3)
      → data_loop start end k i (drop first r.line) first (header_sum k.chunk_len k.chunk_addr) r
        ≡ summed sum r'
      → i < length r'.line
      → scan_hex 2 (drop i r'.line) ≡ some (byte, t)
      → u8 (sum + byte) ≡ 255
      → read_chunk start end k r
        ≡ go (record r' {
          number_of_records =
              if k.data_record then u32 (r'.number_of_records + 1) else r'.number_of_records;
        })
  unfolding read_chunk
  read_chunk_summed k i first sum byte t r r' ei ef hd inside hs hb =
      rw (loop, read_chunk)
        (ap (λ t. check_sum k t sum r') ei ∙ check_sum_good k i sum byte t r' inside hs hb)
    where
      loop :
          data_loop start end k
            (end_index k)
            (drop (2 * (k.chunk_type + 3)) r.line)
            (2 * (k.chunk_type + 3))
            (header_sum k.chunk_len k.chunk_addr)
            r
          ≡ summed sum r'
      loop =
          ap₂
            (λ l f.
              data_loop start end k l (drop f r.line) f (header_sum k.chunk_len k.chunk_addr) r)
            ei (sym ef)
          ∙ hd

  -- A data record of the writer, of 1 to 249 bytes inside a range that ends below 2 ^ 32 - 2:
  -- srec_read stores its bytes `kind - 1` places behind their address and changes no other, if the
  -- buffer has room for them; it counts the record and goes on with the next line.
  pub read_line-srec_line :
      (kind addr b : ℕ) (ds line : List ℕ) (count g records : ℕ) (found : Bool) (expected temp : ℕ)
      (pre old : List ℕ)
      → IsKind kind
      → addr < 256 ^ (kind + 1)
      → start + length pre ≡ addr + (kind - 1)
      → length (b ∷ ds) < 250
      → All IsByte (b ∷ ds)
      → start ≤ addr
      → addr + length (b ∷ ds) ≤ end
      → end + 2 < 4294967296
      → g ≤ addr + length (b ∷ ds)
      → length (b ∷ ds) ≤ length old
      → read_line start end
          (srec_line kind addr (b ∷ ds) ++ (newline ∷ []))
          (reader line count g records found expected temp (pre ++ old))
        ≡ go (
            reader
              (next_array (srec_line kind addr (b ∷ ds)) line)
              (u32 (count + 1))
              (addr + length (b ∷ ds))
              (u32 (records + 1))
              found
              expected
              temp
              ((pre ++ (b ∷ ds)) ++ drop (length (b ∷ ds)) old))
  read_line-srec_line kind addr b ds line count g records found expected temp pre [] k fits ep short
        hb low high small hg ho =
      absurd (omega arith)
  read_line-srec_line kind addr b ds line count g records found expected temp pre (o ∷ old) k fits
        ep short hb low high small hg ho =
      read_line_record (srec_line kind addr (b ∷ ds) ++ (newline ∷ []))
        (reader line count g records found expected temp (pre ++ (o ∷ old)))
        (record { kind = kind; len = n + kind + 2; addr = value }) header
      ∙ read_record_data kind value addr n r' k shifted (omega arith)
      ∙ read_chunk_summed (data_chunk kind addr n) limit (2 * (kind + 3))
          (u32 (header_sum (n + kind + 2) addr + sum_bytes n (b ∷ ds))) csum tail r' _ (omega arith)
          refl
          (ap
              (λ t.
                data_loop start end (data_chunk kind addr n) limit t (2 * (kind + 3))
                  (header_sum (n + kind + 2) addr) r')
              digits
            ∙ data_loop_record start end kind addr n next_line (u32 (count + 1)) records found
                expected temp k (omega arith) low high small b g (header_sum (n + kind + 2) addr) ds
                pre o old (hex_digits 2 csum ++ tail) refl hb ep (omega arith) (omega arith))
          (omega (arith, room)) check (check_sum-srec_csum (b ∷ ds) n (n + kind + 2) addr)
    where
      n : ℕ
      n = length (b ∷ ds)

      limit : ℕ
      limit = 2 * (kind + 3) + 2 * n

      csum : ℕ
      csum = srec_csum (b ∷ ds) n (n + kind + 2) addr

      next_line : List ℕ
      next_line = next_array (srec_line kind addr (b ∷ ds)) line

      r' : Reader
      r' = reader next_line (u32 (count + 1)) g records found expected temp (pre ++ (o ∷ old))

      array : (tail : List ℕ) × (next_line ≡ array_of kind addr (b ∷ ds) tail)
      array = srec_line-array kind addr (b ∷ ds) line

      tail : List ℕ
      tail = array.0

      two :
          (d : ℕ) × (e : ℕ) × (s : List ℕ) × (d < 256)
          × (e < 256)
          × (hex_bytes (b ∷ ds) ++ (hex_digits 2 csum ++ tail)
              ≡ hex_digits 2 d ++ (hex_digits 2 e ++ s))
      two = two_bytes b csum ds tail hb (srec_csum-IsByte (b ∷ ds) n (n + kind + 2) addr)

      scanned :
          (value : ℕ) × (rest : List ℕ) × (scan_hex 8 (
              hex_digits (digits_of kind) addr
              ++ (hex_digits 2 two.0 ++ (hex_digits 2 two.1 ++ two.2)))
            ≡ some (value, rest))
          × (value >> (8 * (3 - kind)) ≡ addr)
      scanned = scan_address kind addr two.0 two.1 two.2 k fits two.3 two.4

      value : ℕ
      value = scanned.0

      shifted : value >> (8 * (3 - kind)) ≡ addr
      shifted = scanned.3

      header :
          scan_header next_line ≡ some (record { kind = kind; len = n + kind + 2; addr = value })
      header =
          ap scan_header array.1
          ∙ scan_header_lem kind (n + kind + 2) value _ scanned.1 (omega arith) (omega arith)
              (ap (λ t. scan_hex 8 (hex_digits (digits_of kind) addr ++ t)) two.5 ∙ scanned.2)

      digits : drop (2 * (kind + 3)) next_line ≡ hex_bytes (b ∷ ds) ++ (hex_digits 2 csum ++ tail)
      digits = ap (drop (2 * (kind + 3))) array.1 ∙ drop_head kind (n + kind + 2) addr _ k

      check : scan_hex 2 (drop limit next_line) ≡ some (csum, tail)
      check =
          ap (scan_hex 2) (
            sym (drop-drop (2 * (kind + 3)) (2 * n) next_line)
            ∙ ap (drop (2 * n)) digits
            ∙ drop-append_length (hex_bytes (b ∷ ds)) (hex_digits 2 csum ++ tail) (2 * n)
                (length-hex_bytes (b ∷ ds)))
          ∙ scan_hex-byte csum tail (srec_csum-IsByte (b ∷ ds) n (n + kind + 2) addr)

      room : length next_line ≡ limit + 2 + length tail
      room =
          ap length array.1
          ∙ simp (length-append {0}, length-hex_digits, length-hex_bytes) (omega arith)
