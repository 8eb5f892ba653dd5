-- ===== src/Srec/Record.antt =====
-- One line of an S-record file through srec_read.
use stm8flash.Common.{ℕ, suc, ◌+◌, ◌-◌, ◌*◌, ◌/◌, ◌%◌, ◌≤◌, ◌<◌, ◌≡◌, sym, ap, ap₂, ◌∙◌}
use stm8flash.Common.{List, [], ◌∷◌, ◌++◌, append-nil, append_assoc, Bool, some, arith}
use stm8flash.Common.{lt→ltb, le→ltb_false, drop, length, All, length-append, set-append_length}
use stm8flash.Common.{u32, sub32}
use stm8flash.ByteUtils.{hi}
use stm8flash.Stdio.{hex_digit, hex_digits, scan_hex}
use stm8flash.Stdio.Print.{scan_hex-byte}
use stm8flash.Stdio.Bytes.{IsByte, hex_bytes}
use stm8flash.Srec.{sum_bytes}
use stm8flash.Srec.Text.{IsKind}
use stm8flash.Srec.Reader.{Reader, Chunk, next, summed}
use stm8flash.Srec.Reader.{store_byte, data_byte, data_loop}
use stm8flash.Srec.Header.{reader, data_chunk}

module _ (start end : ℕ) where
  pub data_loop_done :
      (k : Chunk) (limit : ℕ) (s : List ℕ) (i sum : ℕ) (r : Reader)
      → limit ≤ i
      → data_loop start end k limit s i sum r ≡ summed sum r
  unfolding data_loop
  data_loop_done k limit [] i sum r h = rw (le→ltb_false i limit h)
  data_loop_done k limit (c ∷ []) i sum r h = rw (le→ltb_false i limit h)
  data_loop_done k limit (c ∷ d ∷ s) i sum r h = rw (le→ltb_false i limit h, data_loop)

  data_loop_next :
      (k : Chunk) (limit c d i sum byte : ℕ) (rest t : List ℕ) (r r' : Reader)
      → i < limit
      → scan_hex 2 (c ∷ d ∷ rest) ≡ some (byte, t)
      → data_byte start end k i byte r ≡ next r'
      → data_loop start end k limit (c ∷ d ∷ rest) i sum r
        ≡ data_loop start end k limit rest (i + 2) (u32 (sum + byte)) r'
  unfolding data_loop
  data_loop_next k limit c d i sum byte rest t r r' hi hs hb =
      rw (lt→ltb i limit hi, hs, hb, data_loop)

  -- A byte of a data record that lies in the range is stored, `kind - 1` places behind its
  -- address.
  data_byte_store :
      (kind addr n i j b : ℕ) (line : List ℕ) (count g records : ℕ) (found : Bool)
      (expected temp : ℕ) (pre old : List ℕ) (o : ℕ)
      → IsKind kind
      → i ≡ 2 * (kind + 3) + 2 * j
      → j < n
      → n < 256
      → b < 256
      → start + length pre ≡ addr + (kind - 1) + j
      → start ≤ addr
      → addr + n ≤ end
      → end + 2 < 4294967296
      → g ≤ addr + n
      → data_byte start end
          (data_chunk kind addr n)
          i
          b
          (reader line count g records found expected temp (pre ++ (o ∷ old)))
        ≡ next (reader line count (addr + n) records found expected temp (pre ++ (b ∷ old)))
  unfolding data_byte store_byte
  data_byte_store kind addr n i j b line count g records found expected temp pre old o k ei hj hn hb
        ep low high small hg =
      ground (
        arith,
        length-append pre (o ∷ old),
        set-append_length pre old o b (u32 (sub32 addr start + sub32 i 8 / 2)),
      )

  module _ (kind addr n : ℕ) (line : List ℕ) (count records : ℕ) (found : Bool) (expected temp : ℕ)
      (k : IsKind kind) (short : n < 256) (low : start ≤ addr) (high : addr + n ≤ end)
      (small : end + 2 < 4294967296) where
    abbrev at_data : ℕ → List ℕ → Reader
    at_data g buf = reader line count g records found expected temp buf

    abbrev limit : ℕ
    limit = 2 * (kind + 3) + 2 * n

    data_loop_byte :
        (j b g sum : ℕ) (pre : List ℕ) (o : ℕ) (old s : List ℕ)
        → j < n
        → b < 256
        → start + length pre ≡ addr + (kind - 1) + j
        → g ≤ addr + n
        → data_loop start end
            (data_chunk kind addr n)
            limit
            (hex_digits 2 b ++ s)
            (2 * (kind + 3) + 2 * j)
            sum
            (at_data g (pre ++ (o ∷ old)))
          ≡ data_loop start end
              (data_chunk kind addr n)
              limit
              s
              (2 * (kind + 3) + 2 * suc j)
              (u32 (sum + b))
              (at_data (addr + n) ((pre ++ (b ∷ [])) ++ old))
    unfolding hex_digits
    data_loop_byte j b g sum pre o old s hj hb ep hg =
        data_loop_next (data_chunk kind addr n) limit (hex_digit (b / 16 % 16)) (hex_digit (b % 16))
          (2 * (kind + 3) + 2 * j) sum b s s _ _ (omega arith) (scan_hex-byte b s hb)
          (data_byte_store kind addr n (2 * (kind + 3) + 2 * j) j b line count g records found
            expected temp pre old o k (omega arith) hj short hb ep low high small hg)
        ∙ ap₂
            (λ i t.
              data_loop start end (data_chunk kind addr n) limit s i (u32 (sum + b))
                (at_data (addr + n) t))
            (omega arith) (sym (append_assoc pre (b ∷ []) old))

    data_loop_bytes :
        (ds : List ℕ) (j sum : ℕ) (pre old tail : List ℕ)
        → n ≡ j + length ds
        → sum < 4294967296
        → All IsByte ds
        → start + length pre ≡ addr + (kind - 1) + j
        → length ds ≤ length old
        → data_loop start end
            (data_chunk kind addr n)
            limit
            (hex_bytes ds ++ tail)
            (2 * (kind + 3) + 2 * j)
            sum
            (at_data (addr + n) (pre ++ old))
          ≡ summed
              (u32 (sum + sum_bytes (length ds) ds))
              (at_data (addr + n) ((pre ++ ds) ++ drop (length ds) old))
    unfolding hex_bytes sum_bytes
    data_loop_bytes [] j sum pre old tail en hs hb ep ho =
        data_loop_done (data_chunk kind addr n) limit tail (2 * (kind + 3) + 2 * j) sum
          (at_data (addr + n) (pre ++ old)) (omega arith)
        ∙ ap₂ (λ t u. summed t (at_data (addr + n) (u ++ old))) (omega arith) (sym (append-nil pre))
    data_loop_bytes (b ∷ ds) j sum pre [] tail en hs hb ep ho = absurd (omega arith)
    data_loop_bytes (b ∷ ds) j sum pre (o ∷ old) tail en hs hb ep ho =
        ap
          (λ t.
            data_loop start end (data_chunk kind addr n) limit t (2 * (kind + 3) + 2 * j) sum
              (at_data (addr + n) (pre ++ (o ∷ old))))
          (append_assoc (hex_digits 2 b) (hex_bytes ds) tail)
        ∙ data_loop_byte j b (addr + n) sum pre o old (hex_bytes ds ++ tail) (omega arith) hb.0 ep
            (omega arith)
        ∙ data_loop_bytes ds (suc j) (u32 (sum + b)) (pre ++ (b ∷ [])) old tail (omega arith)
            (omega arith) hb.1 (omega (arith, length-append pre (b ∷ []))) (omega arith)
        ∙ ap₂ (λ t u. summed t (at_data (addr + n) (u ++ drop (length ds) old))) (omega arith)
            (append_assoc pre (b ∷ []) ds)

    -- The digits of a whole record, of a byte at least.
    pub data_loop_record :
        (b g sum : ℕ) (ds pre : List ℕ) (o : ℕ) (old tail : List ℕ)
        → n ≡ length (b ∷ ds)
        → All IsByte (b ∷ ds)
        → start + length pre ≡ addr + (kind - 1)
        → g ≤ addr + n
        → length ds ≤ length old
        → data_loop start end
            (data_chunk kind addr n)
            limit
            (hex_bytes (b ∷ ds) ++ tail)
            (2 * (kind + 3))
            sum
            (at_data g (pre ++ (o ∷ old)))
          ≡ summed
              (u32 (sum + sum_bytes n (b ∷ ds)))
              (at_data (addr + n) ((pre ++ (b ∷ ds)) ++ drop (length ds) old))
    unfolding hex_bytes sum_bytes
    data_loop_record b g sum ds pre o old tail en hb ep hg ho =
        ap₂
          (λ t i.
            data_loop start end (data_chunk kind addr n) limit t i sum
              (at_data g (pre ++ (o ∷ old))))
          (append_assoc (hex_digits 2 b) (hex_bytes ds) tail) (omega arith)
        ∙ data_loop_byte 0 b g sum pre o old (hex_bytes ds ++ tail) (omega arith) hb.0 (omega arith)
            hg
        ∙ data_loop_bytes ds 1 (u32 (sum + b)) (pre ++ (b ∷ [])) old tail (omega arith)
            (omega arith) hb.1 (omega (arith, length-append pre (b ∷ []))) ho
        ∙ ap₂ (λ t u. summed t (at_data (addr + n) (u ++ drop (length ds) old)))
            (omega (arith, ap (λ t. sum_bytes t (b ∷ ds)) en)) (append_assoc pre (b ∷ []) ds)
