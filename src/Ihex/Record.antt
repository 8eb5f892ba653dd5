-- ===== src/Ihex/Record.antt =====
-- One line of an Intel hex file through ihex_read.
use stm8flash.Stdio.Bytes.{IsByte, hex_bytes}
use stm8flash.Common.{ℕ, suc, ◌+◌, ◌-◌, ◌*◌, ◌/◌, ◌%◌, ◌≤◌, ◌<◌, ◌≡◌, refl, sym, ap, ◌∙◌}
use stm8flash.Common.{
  List, [], ◌∷◌, ◌++◌, append-nil, append_assoc, none, some, ◌⊎◌, inl, inr, arith,
}
use stm8flash.Common.{lt→ltb, drop, get_elem?, length, All}
use stm8flash.Common.{length-append, set-append_length, u32, sub32}
use stm8flash.Stdio.{hex_digit, hex_digits, scan_hex, strlen}
use stm8flash.Stdio.Print.{scan_hex-byte, scan_hex-word}
use stm8flash.Ihex.Reader.{Reader, Header, leave, next, go, strip_cr, scan_header}
use stm8flash.Ihex.Reader.{data_byte, data_loop}

at_strlen :
    (line : List ℕ)
    → (get_elem? line (strlen line) ≡ none) ⊎ (get_elem? line (strlen line) ≡ some 0)
unfolding strlen
at_strlen [] = inl refl
at_strlen (c ∷ line) = ground (arith, at_strlen line)

-- Stripping the carriage return changes no line: the character that is looked at is the NUL.
pub strip_cr_lem : (line : List ℕ) → strip_cr line ≡ line
unfolding strip_cr
strip_cr_lem line = elim (at_strlen line) [ inl e ↦ rw (e, strip_cr) | inr e ↦ rw (e, strip_cr) ]

pub scan_header_lem :
    (len addr kind : ℕ) (r : List ℕ)
    → len < 256
    → addr < 65536
    → kind < 256
    → scan_header (b':' ∷ (hex_digits 2 len ++ (hex_digits 4 addr ++ (hex_digits 2 kind ++ r))))
      ≡ some (record { chunk_len = len; chunk_addr = addr; chunk_type = kind })
unfolding scan_header
scan_header_lem len addr kind r hl ha hk = rw (
  scan_hex-byte len (hex_digits 4 addr ++ (hex_digits 2 kind ++ r)) hl,
  scan_hex-word addr (hex_digits 2 kind ++ r) ha,
  scan_hex-byte kind r hk,
)

abbrev pub reader : List ℕ → ℕ → ℕ → ℕ → List ℕ → Reader
reader line count greatest off buf = record {
  line = line;
  line_no = count;
  greatest_addr = greatest;
  offset = off;
  buf = buf;
}

abbrev pub data_header : ℕ → ℕ → Header
data_header len addr = record { chunk_len = len; chunk_addr = addr; chunk_type = 0 }

module _ (start end : ℕ) where
  pub data_loop_next :
      (h : Header) (limit c d i byte : ℕ) (rest t : List ℕ) (r r' : Reader)
      → i < limit
      → scan_hex 2 (c ∷ d ∷ rest) ≡ some (byte, t)
      → data_byte start end h i byte r ≡ next r'
      → data_loop start end h limit (c ∷ d ∷ rest) i r ≡ data_loop start end h limit rest (i + 2) r'
  unfolding data_loop
  data_loop_next h limit c d i byte rest t r r' hi hs hb = rw (lt→ltb i limit hi, hs, hb, data_loop)

  pub data_loop_leave :
      (h : Header) (limit c d i byte : ℕ) (rest t : List ℕ) (r : Reader)
      → i < limit
      → scan_hex 2 (c ∷ d ∷ rest) ≡ some (byte, t)
      → data_byte start end h i byte r ≡ leave
      → data_loop start end h limit (c ∷ d ∷ rest) i r ≡ go r
  unfolding data_loop
  data_loop_leave h limit c d i byte rest t r hi hs hb = rw (lt→ltb i limit hi, hs, hb, data_loop)

  -- A byte of a data record that lies in the range goes to its place.
  data_byte_store :
      (len addr i j b : ℕ) (line : List ℕ) (count g off : ℕ) (pre old : List ℕ) (o : ℕ)
      → i ≡ 9 + 2 * j
      → j < len
      → b < 256
      → start + length pre ≡ addr + off + j
      → start ≤ addr + off
      → addr + off + len ≤ end
      → end < 4294967296
      → g ≤ addr + off + len
      → data_byte start end (data_header len addr) i b (reader line count g off (pre ++ (o ∷ old)))
        ≡ next (reader line count (addr + off + len) off (pre ++ (b ∷ old)))
  unfolding data_byte
  data_byte_store len addr i j b line count g off pre old o ei hj hb ep low high small hg = ground (
    arith,
    length-append pre (o ∷ old),
    set-append_length pre old o b (u32 (sub32 (addr + off) start + (i - 9) / 2)),
  )

  module _ (len addr limit : ℕ) (line : List ℕ) (count off : ℕ) (low : start ≤ addr + off)
      (high : addr + off + len ≤ end) (small : end < 4294967296) where
    pub data_loop_byte :
        (i j b g : ℕ) (pre : List ℕ) (o : ℕ) (old s : List ℕ)
        → i ≡ 9 + 2 * j
        → j < len
        → i < limit
        → b < 256
        → start + length pre ≡ addr + off + j
        → g ≤ addr + off + len
        → data_loop start end
            (data_header len addr)
            limit
            (hex_digits 2 b ++ s)
            i
            (reader line count g off (pre ++ (o ∷ old)))
          ≡ data_loop start end
              (data_header len addr)
              limit
              s
              (i + 2)
              (reader line count (addr + off + len) off ((pre ++ (b ∷ [])) ++ old))
    unfolding hex_digits
    data_loop_byte i j b g pre o old s ei hj hi hb ep hg =
        data_loop_next _ limit (hex_digit (b / 16 % 16)) (hex_digit (b % 16)) i b s s _ _ hi
          (scan_hex-byte b s hb)
          (data_byte_store len addr i j b line count g off pre old o ei hj hb ep low high small hg)
        ∙ ap
            (λ t.
              data_loop start end (data_header len addr) limit s (i + 2)
                (reader line count (addr + off + len) off t))
            (sym (append_assoc pre (b ∷ []) old))

    -- The digits of the bytes of a record, and the two of its checksum behind them.
    pub data_loop_bytes :
        (ds : List ℕ) (i j check : ℕ) (pre old tail : List ℕ)
        → i ≡ 9 + 2 * j
        → len ≡ j + length ds
        → i + 2 * length ds < limit
        → check < 256
        → All IsByte ds
        → start + length pre ≡ addr + off + j
        → length ds ≤ length old
        → data_loop start end
            (data_header len addr)
            limit
            (hex_bytes ds ++ (hex_digits 2 check ++ tail))
            i
            (reader line count (addr + off + len) off (pre ++ old))
          ≡ go (reader line count (addr + off + len) off ((pre ++ ds) ++ drop (length ds) old))
    unfolding hex_bytes hex_digits
    data_loop_bytes [] i j check pre old tail ei el hi hc hb ep ho =
        data_loop_leave (data_header len addr) limit (hex_digit (check / 16 % 16))
          (hex_digit (check % 16)) i check tail tail
          (reader line count (addr + off + len) off (pre ++ old)) (omega arith)
          (scan_hex-byte check tail hc) (unfold data_byte in ground arith)
        ∙ ap (λ t. go (reader line count (addr + off + len) off (t ++ old))) (sym (append-nil pre))
    data_loop_bytes (b ∷ ds) i j check pre [] tail ei el hi hc hb ep ho = absurd (omega arith)
    data_loop_bytes (b ∷ ds) i j check pre (o ∷ old) tail ei el hi hc hb ep ho =
        ap
          (λ t.
            data_loop start end (data_header len addr) limit t i
              (reader line count (addr + off + len) off (pre ++ (o ∷ old))))
          (append_assoc (hex_digits 2 b) (hex_bytes ds) (hex_digits 2 check ++ tail))
        ∙ data_loop_byte i j b (addr + off + len) pre o old
            (hex_bytes ds ++ (hex_digits 2 check ++ tail)) ei (omega arith) (omega arith) hb.0 ep
            (omega arith)
        ∙ data_loop_bytes ds (i + 2) (suc j) check (pre ++ (b ∷ [])) old tail (omega arith)
            (omega arith) (omega arith) hc hb.1 (omega (arith, length-append pre (b ∷ [])))
            (omega arith)
        ∙ ap (λ t. go (reader line count (addr + off + len) off (t ++ drop (length ds) old)))
            (append_assoc pre (b ∷ []) ds)

    -- The digits of a whole record, of a byte at least.
    pub data_loop_record :
        (b check g : ℕ) (ds pre : List ℕ) (o : ℕ) (old tail : List ℕ)
        → len ≡ length (b ∷ ds)
        → 9 + 2 * length (b ∷ ds) < limit
        → check < 256
        → All IsByte (b ∷ ds)
        → start + length pre ≡ addr + off
        → g ≤ addr + off + len
        → length ds ≤ length old
        → data_loop start end
            (data_header len addr)
            limit
            (hex_bytes (b ∷ ds) ++ (hex_digits 2 check ++ tail))
            9
            (reader line count g off (pre ++ (o ∷ old)))
          ≡ go
              (reader line count (addr + off + len) off ((pre ++ (b ∷ ds)) ++ drop (length ds) old))
    unfolding hex_bytes
    data_loop_record b check g ds pre o old tail el hl hc hb ep hg ho =
        ap
          (λ t.
            data_loop start end (data_header len addr) limit t 9
              (reader line count g off (pre ++ (o ∷ old))))
          (append_assoc (hex_digits 2 b) (hex_bytes ds) (hex_digits 2 check ++ tail))
        ∙ data_loop_byte 9 0 b g pre o old (hex_bytes ds ++ (hex_digits 2 check ++ tail))
            (omega arith) (omega arith) (omega arith) hb.0 (omega arith) hg
        ∙ data_loop_bytes ds 11 1 check (pre ++ (b ∷ [])) old tail (omega arith) (omega arith)
            (omega arith) hc hb.1 (omega (arith, length-append pre (b ∷ []))) ho
        ∙ ap (λ t. go (reader line count (addr + off + len) off (t ++ drop (length ds) old)))
            (append_assoc pre (b ∷ []) ds)
