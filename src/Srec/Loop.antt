-- ===== src/Srec/Loop.antt =====
-- The loop of srec_read over the lines that srec_write has written.
use stm8flash.Common.{ℕ, zero, suc, ◌+◌, ◌-◌, ◌/◌, ◌^◌, ◌≤◌, ◌<◌, ◌≡◌, refl, ap, ap₂, ◌∙◌}
use stm8flash.Common.{List, [], ◌∷◌, ◌++◌, inl, inr, arith, Bool, true}
use stm8flash.Common.{take, drop, length, All, length-append, length-take, length-drop}
use stm8flash.Common.{u32, sub32, Bool-cases, ltb, ltb→lt, le→ltb_false, ==_iff}
use stm8flash.Stdio.{newline, fgets}
use stm8flash.Stdio.Lines.{IsPlain, fgets-line}
use stm8flash.Stdio.Bytes.{IsByte, All-take, All-drop, bytes_parts, bytes_none}
use stm8flash.Srec.{chunk_length, data_rectype}
use stm8flash.Srec.Text.{IsKind, srec_line, count_line, end_line, loop_text}
use stm8flash.Srec.Text.{data_rectype-cases}
use stm8flash.Srec.Writer.{chunk_length-le}
use stm8flash.Srec.Reader.{Reader, returned, go, finish, read_line, read_loop}
use stm8flash.Srec.Header.{reader}
use stm8flash.Srec.Line.{read_line-srec_line}
use stm8flash.Srec.Array.{next_array}
use stm8flash.Srec.Ends.{read_line-count_line, read_line-end_line}
use stm8flash.Srec.Plain.{srec_line-IsPlain, length-srec_line}
use stm8flash.Srec.Plain.{count_line-IsPlain, length-count_line, end_line-IsPlain, length-end_line}

module _ (start end : ℕ) where
  -- A line that fits the array takes one round of the loop.
  pub read_loop_line :
      (fuel : ℕ) (l rest : List ℕ) (r r' : Reader)
      → All IsPlain l
      → length l ≤ 514
      → length (l ++ (newline ∷ rest)) ≤ fuel
      → read_line start end (l ++ (newline ∷ [])) r ≡ go r'
      → (left : ℕ) × (length rest ≤ left)
        × (read_loop start end fuel (l ++ (newline ∷ rest)) r ≡ read_loop start end left rest r')
  unfolding read_loop
  read_loop_line zero l rest r r' plain short enough e =
      absurd (omega (arith, length-append l (newline ∷ rest)))
  read_loop_line (suc fuel) l rest r r' plain short enough e = (
    fuel,
    omega (arith, length-append l (newline ∷ rest)),
    rw (fgets-line 516 l rest plain (omega arith), e, read_loop),
  )

  read_loop_end :
      (fuel num : ℕ) (line : List ℕ) (count g temp : ℕ) (buf : List ℕ)
      → read_loop start end fuel [] (reader line count g num true num temp buf)
        ≡ returned (sub32 g start) buf
  unfolding read_loop finish fgets
  read_loop_end zero num line count g temp buf = rw ((==_iff num num).1 refl)
  read_loop_end (suc fuel) num line count g temp buf = rw ((==_iff num num).1 refl)

  -- The two lines behind the data.
  read_loop_ends :
      (fuel kind num : ℕ) (line : List ℕ) (count g : ℕ) (found : Bool) (expected temp : ℕ)
      (buf : List ℕ)
      → IsKind kind
      → num < 65536
      → length (count_line num ++ (newline ∷ (end_line kind ++ (newline ∷ [])))) ≤ fuel
      → read_loop start end fuel
          (count_line num ++ (newline ∷ (end_line kind ++ (newline ∷ []))))
          (reader line count g num found expected temp buf)
        ≡ returned (sub32 g start) buf
  read_loop_ends fuel kind num line count g found expected temp buf k small enough =
      let line' = next_array (count_line num) line in
      let (left, enough', first) =
        read_loop_line fuel (count_line num) (end_line kind ++ (newline ∷ []))
          (reader line count g num found expected temp buf)
          (reader line' (u32 (count + 1)) g num true num temp buf) (count_line-IsPlain num)
          (omega (arith, length-count_line num)) enough
          (read_line-count_line start end line count g num num found expected temp buf small) in
      let (left', enough'', second) =
        read_loop_line left (end_line kind) []
          (reader line' (u32 (count + 1)) g num true num temp buf)
          (reader (next_array (end_line kind) line') (u32 (u32 (count + 1) + 1)) g num true num temp
            buf)
          (end_line-IsPlain kind) (omega (arith, length-end_line kind)) enough'
          (read_line-end_line start end line' (u32 (count + 1)) g num kind true num temp buf k) in
      first ∙ second ∙ read_loop_end left' num _ _ g temp buf

  -- A data record of at most 32 bytes.
  read_loop_data :
      (fuel kind addr : ℕ) (bytes s line : List ℕ) (count g num : ℕ) (found : Bool)
      (expected temp : ℕ) (pre old : List ℕ)
      → IsKind kind
      → addr < 256 ^ (kind + 1)
      → start + length pre ≡ addr + (kind - 1)
      → 1 ≤ length bytes
      → length bytes ≤ 32
      → All IsByte bytes
      → start ≤ addr
      → addr + length bytes ≤ end
      → end + 2 < 4294967296
      → g ≤ addr
      → length bytes ≤ length old
      → length (srec_line kind addr bytes ++ (newline ∷ s)) ≤ fuel
      → (left : ℕ) × (line' : List ℕ) × (count' : ℕ) × (length s ≤ left)
        × (read_loop start end fuel
              (srec_line kind addr bytes ++ (newline ∷ s))
              (reader line count g num found expected temp (pre ++ old))
            ≡ read_loop start end left s (
                reader line' count'
                  (addr + length bytes)
                  (u32 (num + 1))
                  found
                  expected
                  temp
                  ((pre ++ bytes) ++ drop (length bytes) old)))
  read_loop_data fuel kind addr [] s line count g num found expected temp pre old k fits ep full
        short hb low high small hg ho enough =
      absurd (omega arith)
  read_loop_data fuel kind addr (b ∷ ds) s line count g num found expected temp pre old k fits ep
        full short hb low high small hg ho enough =
      let (left, enough', e) =
        read_loop_line fuel (srec_line kind addr (b ∷ ds)) s
          (reader line count g num found expected temp (pre ++ old))
          (reader (next_array (srec_line kind addr (b ∷ ds)) line) (u32 (count + 1))
            (addr + length (b ∷ ds)) (u32 (num + 1)) found expected temp
            ((pre ++ (b ∷ ds)) ++ drop (length (b ∷ ds)) old))
          (srec_line-IsPlain kind addr (b ∷ ds))
          (omega (arith, length-srec_line kind addr (b ∷ ds))) enough
          (read_line-srec_line start end kind addr b ds line count g num found expected temp pre old
            k fits ep (omega arith) hb low high small (omega arith) ho) in
      (left, next_array (srec_line kind addr (b ∷ ds)) line, u32 (count + 1), enough', e)

loop_text_more :
    (rounds stop num addr : ℕ) (bytes : List ℕ)
    → ltb addr stop ≡ true
    → loop_text (suc rounds) stop num addr bytes
      ≡ srec_line (data_rectype stop) addr (take (chunk_length stop addr) bytes)
        ++ (newline
            ∷ loop_text rounds stop
                (num + 1)
                (addr + chunk_length stop addr)
                (drop (chunk_length stop addr) bytes))
unfolding loop_text
loop_text_more rounds stop num addr bytes e = rw e

loop_text_done :
    (rounds stop num addr : ℕ) (bytes : List ℕ)
    → stop ≤ addr
    → loop_text rounds stop num addr bytes
      ≡ count_line num ++ (newline ∷ (end_line (data_rectype stop) ++ (newline ∷ [])))
unfolding loop_text
loop_text_done zero stop num addr bytes h = refl
loop_text_done (suc rounds) stop num addr bytes h = rw (le→ltb_false addr stop h)

module _ (start stop : ℕ) (small : stop + 2 < 4294967296) (found : Bool) (expected temp : ℕ) where
  read_loop_text_end :
      (rounds fuel addr num : ℕ) (bytes line : List ℕ) (count g : ℕ) (pre old : List ℕ)
      → addr + length bytes ≡ stop
      → stop ≤ addr
      → (addr ≡ stop → g ≡ stop)
      → num < 65536
      → length (loop_text rounds stop num addr bytes) ≤ fuel
      → read_loop start stop fuel
          (loop_text rounds stop num addr bytes)
          (reader line count g num found expected temp (pre ++ old))
        ≡ returned (sub32 stop start) ((pre ++ bytes) ++ drop (length bytes) old)
  read_loop_text_end rounds fuel addr num bytes line count g pre old es low hl few fits =
      let text = loop_text_done rounds stop num addr bytes low in
      let (kind, widths, fits_kind) = data_rectype-cases stop (omega arith) in
      ap
        (λ t.
          read_loop start stop fuel t (reader line count g num found expected temp (pre ++ old)))
        text
      ∙ read_loop_ends start stop fuel (data_rectype stop) num line count g found expected temp
          (pre ++ old) kind few (omega (arith, ap length text))
      ∙ ap₂ (λ t u. returned (sub32 t start) u) (hl (omega arith))
          (bytes_none pre bytes old (omega arith))

  -- The buffer is `pre ++ old`; `pre` has been read back, and `bytes` will take the place of as
  -- many bytes of `old`.
  pub read_loop_text :
      (rounds fuel addr num : ℕ) (bytes line : List ℕ) (count g : ℕ) (pre old : List ℕ)
      → start + length pre ≡ addr + (data_rectype stop - 1)
      → start ≤ addr
      → addr + length bytes ≡ stop
      → stop ≤ addr + rounds
      → All IsByte bytes
      → length bytes ≤ length old
      → g ≤ addr
      → (addr ≡ stop → g ≡ stop)
      → num + (length bytes + 31) / 32 < 65536
      → length (loop_text rounds stop num addr bytes) ≤ fuel
      → read_loop start stop fuel
          (loop_text rounds stop num addr bytes)
          (reader line count g num found expected temp (pre ++ old))
        ≡ returned (sub32 stop start) ((pre ++ bytes) ++ drop (length bytes) old)
  read_loop_text zero fuel addr num bytes line count g pre old ep low es enough hb ho hg hl few
        fits =
      read_loop_text_end zero fuel addr num bytes line count g pre old es (omega arith) hl
        (omega arith) fits
  read_loop_text (suc rounds) fuel addr num bytes line count g pre old ep low es enough hb ho hg hl
        few fits =
      elim (Bool-cases (ltb addr stop)) [
        | inl more ↦
            let n = chunk_length stop addr in
            let (kind, widths, fits_kind) = data_rectype-cases stop (omega arith) in
            let (n_pos, n_le, in_range, full) =
              chunk_length-le stop addr (ltb→lt addr stop more) (omega arith) in
            let front = take n bytes in
            let back = drop n bytes in
            let size : length front ≡ n = omega (arith, length-take n bytes) in
            let text = loop_text_more rounds stop num addr bytes more in
            let rest = loop_text rounds stop (num + 1) (addr + n) back in
            let (left, line', count', fits', first) =
              read_loop_data start stop fuel (data_rectype stop) addr front rest line count g num
                found expected temp pre old kind (omega arith) ep (omega arith) (omega arith)
                (All-take n bytes hb) low (omega arith) small hg (omega arith)
                (omega (arith, ap length text)) in
            ap
              (λ t.
                read_loop start stop fuel t
                  (reader line count g num found expected temp (pre ++ old)))
              text
            ∙ first
            ∙ ap₂
                (λ t m. read_loop start stop left rest (
                  reader line' count' t m found expected temp
                    ((pre ++ front) ++ drop (length front) old)))
                (omega arith) (omega arith)
            ∙ read_loop_text rounds left (addr + n) (num + 1) back line' count' (addr + n)
                (pre ++ front) (drop (length front) old) (omega (arith, length-append pre front))
                (omega arith) (omega (arith, length-drop n bytes)) (omega arith)
                (All-drop n bytes hb)
                (omega (arith, length-drop n bytes, length-drop (length front) old)) (omega arith)
                (λ e. e) (omega (arith, length-drop n bytes)) fits'
            ∙ ap (returned (sub32 stop start)) (bytes_parts n pre bytes old size)
        | inr done ↦
            read_loop_text_end (suc rounds) fuel addr num bytes line count g pre old es
              (ground arith) hl (omega arith) fits
      ]
