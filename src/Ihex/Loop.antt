-- ===== src/Ihex/Loop.antt =====
-- The loop of ihex_read over the lines that ihex_write has written.
use stm8flash.Stdio.Bytes.{bytes_parts, bytes_none, IsByte, All-take, All-drop}
use stm8flash.Common.{ℕ, zero, suc, ◌+◌, ◌*◌, ◌≤◌, ◌<◌, ◌≡◌, refl, ap, ap₂, ◌∙◌}
use stm8flash.Common.{List, [], ◌∷◌, ◌++◌, append_assoc, inl, inr, arith, true, false}
use stm8flash.Common.{take, drop, length, All, length-append, length-take, length-drop}
use stm8flash.Common.{u16, u32, sub32, ◌>>◌, Bool-cases, ltb, ltb→lt, le→ltb_false, ◌==◌, ==_iff}
use stm8flash.Stdio.{newline}
use stm8flash.Stdio.Lines.{IsPlain, fgets-line}
use stm8flash.Ihex.{chunk_length}
use stm8flash.Ihex.Text.{data_line, ela_line, ela_text, end_line, loop_text}
use stm8flash.Ihex.Writer.{chunk_length_bounds}
use stm8flash.Ihex.Reader.{Reader, returned, go, read_line, read_loop}
use stm8flash.Ihex.Record.{reader}
use stm8flash.Ihex.Line.{read_line-data_line, read_line-ela_line, read_line-end_line, next_array}
use stm8flash.Ihex.Plain.{data_line-IsPlain, length-data_line, ela_line-IsPlain, end_line-IsPlain}
use stm8flash.Ihex.Plain.{length-ela_line, length-end_line}

ela_text_same :
    (cur_ela block : ℕ) (s : List ℕ) → (cur_ela == block) ≡ true → ela_text cur_ela block ++ s ≡ s
unfolding ela_text
ela_text_same cur_ela block s e = rw e

ela_text_other :
    (cur_ela block : ℕ) (s : List ℕ)
    → (cur_ela == block) ≡ false
    → ela_text cur_ela block ++ s ≡ ela_line block ++ (newline ∷ s)
unfolding ela_text
ela_text_other cur_ela block s e = rw e (append_assoc (ela_line block) (newline ∷ []) s)

module _ (start end : ℕ) where
  -- A line that fits the array takes one round of the loop.
  pub read_loop_line :
      (fuel : ℕ) (l rest : List ℕ) (r r' : Reader)
      → All IsPlain l
      → length l ≤ 521
      → length (l ++ (newline ∷ rest)) ≤ fuel
      → read_line start end (l ++ (newline ∷ [])) r ≡ go r'
      → (left : ℕ) × (length rest ≤ left)
        × (read_loop start end fuel (l ++ (newline ∷ rest)) r ≡ read_loop start end left rest r')
  unfolding read_loop
  read_loop_line zero l rest r r' plain short enough e =
      absurd (omega (arith, length-append l (newline ∷ rest)))
  read_loop_line (suc fuel) l rest r r' plain short enough e = (
    fuel,
    omega (arith, length-append l (newline ∷ rest)),
    rw (fgets-line 523 l rest plain (omega arith), e, read_loop),
  )

  read_loop_end :
      (fuel : ℕ) (r : Reader)
      → read_loop start end fuel [] r ≡ returned (sub32 r.greatest_addr start) r.buf
  unfolding read_loop
  read_loop_end zero r = refl
  read_loop_end (suc fuel) r = refl

  -- The record that sets the offset, or none if it is set already.
  read_loop_ela :
      (fuel cur_ela block : ℕ) (s line : List ℕ) (count g off : ℕ) (buf : List ℕ)
      → block < 65536
      → (cur_ela ≡ block → off ≡ block * 65536)
      → length (ela_text cur_ela block ++ s) ≤ fuel
      → (left : ℕ) × (line' : List ℕ) × (count' : ℕ) × (length s ≤ left)
        × (read_loop start end fuel (ela_text cur_ela block ++ s) (reader line count g off buf)
            ≡ read_loop start end left s (reader line' count' g (block * 65536) buf))
  read_loop_ela fuel cur_ela block s line count g off buf hb set enough =
      elim (Bool-cases (cur_ela == block)) [
        | inl same ↦
            let text = ela_text_same cur_ela block s same in
            (
              fuel,
              line,
              count,
              omega (arith, ap length text),
              ap₂ (λ t o. read_loop start end fuel t (reader line count g o buf)) text
                  (set ((==_iff cur_ela block).0 same)),
            )
        | inr other ↦
            let text = ela_text_other cur_ela block s other in
            let (left, enough', e) =
              read_loop_line fuel (ela_line block) s (reader line count g off buf)
                (reader (next_array (ela_line block) line) (u32 (count + 1)) g (block * 65536) buf)
                (ela_line-IsPlain block) (omega (arith, length-ela_line block))
                (omega (arith, ap length text))
                (read_line-ela_line start end block line count g off buf hb) in
            (
              left,
              next_array (ela_line block) line,
              u32 (count + 1),
              enough',
              ap (λ t. read_loop start end fuel t (reader line count g off buf)) text ∙ e,
            )
      ]

  -- A data record of at most 32 bytes.
  read_loop_data :
      (fuel addr : ℕ) (bytes s line : List ℕ) (count g off : ℕ) (pre old : List ℕ)
      → u16 addr + off ≡ addr
      → start + length pre ≡ addr
      → 1 ≤ length bytes
      → length bytes ≤ 32
      → All IsByte bytes
      → addr + length bytes ≤ end
      → end < 4294967296
      → g ≤ addr
      → length bytes ≤ length old
      → length (data_line addr bytes ++ (newline ∷ s)) ≤ fuel
      → (left : ℕ) × (line' : List ℕ) × (count' : ℕ) × (length s ≤ left)
        × (read_loop start end fuel
              (data_line addr bytes ++ (newline ∷ s))
              (reader line count g off (pre ++ old))
            ≡ read_loop start end left s (
                reader line' count'
                  (addr + length bytes)
                  off
                  ((pre ++ bytes) ++ drop (length bytes) old)))
  read_loop_data fuel addr [] s line count g off pre old eo ep full short hb high small hg ho
        enough =
      absurd (omega arith)
  read_loop_data fuel addr (b ∷ ds) s line count g off pre old eo ep full short hb high small hg ho
        enough =
      let top = u16 addr + off + length (b ∷ ds) in
      let (left, enough', e) =
        read_loop_line fuel (data_line addr (b ∷ ds)) s (reader line count g off (pre ++ old))
          (reader (next_array (data_line addr (b ∷ ds)) line) (u32 (count + 1)) top off
            ((pre ++ (b ∷ ds)) ++ drop (length (b ∷ ds)) old))
          (data_line-IsPlain addr (b ∷ ds)) (omega (arith, length-data_line addr (b ∷ ds))) enough
          (read_line-data_line start end addr b ds line count g off pre old eo ep (omega arith) hb
            high small (omega arith) ho) in
      (
        left,
        next_array (data_line addr (b ∷ ds)) line,
        u32 (count + 1),
        enough',
        e
            ∙ ap
                (λ t. read_loop start end left s (
                  reader (next_array (data_line addr (b ∷ ds)) line) (u32 (count + 1)) t off
                    ((pre ++ (b ∷ ds)) ++ drop (length (b ∷ ds)) old)))
                (omega arith),
      )

loop_text_more :
    (rounds stop cur_ela addr : ℕ) (bytes : List ℕ)
    → ltb addr stop ≡ true
    → loop_text (suc rounds) stop cur_ela addr bytes
      ≡ ela_text cur_ela (addr >> 16)
        ++ (data_line addr (take (chunk_length stop addr) bytes)
            ++ (newline
                ∷ loop_text rounds stop
                    (addr >> 16)
                    (addr + chunk_length stop addr)
                    (drop (chunk_length stop addr) bytes)))
unfolding loop_text
loop_text_more rounds stop cur_ela addr bytes e = rw e

loop_text_done :
    (rounds stop cur_ela addr : ℕ) (bytes : List ℕ)
    → stop ≤ addr
    → loop_text rounds stop cur_ela addr bytes ≡ end_line ++ (newline ∷ [])
unfolding loop_text
loop_text_done zero stop cur_ela addr bytes h = refl
loop_text_done (suc rounds) stop cur_ela addr bytes h = rw (le→ltb_false addr stop h)

module _ (start stop : ℕ) (small : stop < 4294967296) where
  read_loop_text_end :
      (rounds fuel addr cur_ela : ℕ) (bytes line : List ℕ) (count g off : ℕ) (pre old : List ℕ)
      → addr + length bytes ≡ stop
      → stop ≤ addr
      → (addr ≡ stop → g ≡ stop)
      → length (loop_text rounds stop cur_ela addr bytes) ≤ fuel
      → read_loop start stop fuel
          (loop_text rounds stop cur_ela addr bytes)
          (reader line count g off (pre ++ old))
        ≡ returned (sub32 stop start) ((pre ++ bytes) ++ drop (length bytes) old)
  read_loop_text_end rounds fuel addr cur_ela bytes line count g off pre old es low hl fits =
      let text = loop_text_done rounds stop cur_ela addr bytes low in
      let (left, enough, e) =
        read_loop_line start stop fuel end_line [] (reader line count g off (pre ++ old))
          (reader (next_array end_line line) (u32 (count + 1)) g off (pre ++ old)) end_line-IsPlain
          (omega (arith, length-end_line)) (omega (arith, ap length text))
          (read_line-end_line start stop line count g off (pre ++ old)) in
      ap (λ t. read_loop start stop fuel t (reader line count g off (pre ++ old))) text
      ∙ e
      ∙ read_loop_end start stop left _
      ∙ ap₂ (λ t u. returned (sub32 t start) u) (hl (omega arith))
          (bytes_none pre bytes old (omega arith))

  -- The buffer is `pre ++ old`; `pre` has been read back, and `bytes` will take the place of as
  -- many bytes of `old`.
  pub read_loop_text :
      (rounds fuel addr cur_ela : ℕ) (bytes line : List ℕ) (count g off : ℕ) (pre old : List ℕ)
      → start + length pre ≡ addr
      → addr + length bytes ≡ stop
      → stop ≤ addr + rounds
      → All IsByte bytes
      → length bytes ≤ length old
      → (cur_ela ≡ addr >> 16 → off ≡ (addr >> 16) * 65536)
      → g ≤ addr
      → (addr ≡ stop → g ≡ stop)
      → length (loop_text rounds stop cur_ela addr bytes) ≤ fuel
      → read_loop start stop fuel
          (loop_text rounds stop cur_ela addr bytes)
          (reader line count g off (pre ++ old))
        ≡ returned (sub32 stop start) ((pre ++ bytes) ++ drop (length bytes) old)
  read_loop_text zero fuel addr cur_ela bytes line count g off pre old ep es enough hb ho set hg hl
        fits =
      read_loop_text_end zero fuel addr cur_ela bytes line count g off pre old es (omega arith) hl
        fits
  read_loop_text (suc rounds) fuel addr cur_ela bytes line count g off pre old ep es enough hb ho
        set hg hl fits =
      elim (Bool-cases (ltb addr stop)) [
        | inl more ↦
            let n = chunk_length stop addr in
            let (n_pos, n_le, in_range, in_block) =
              chunk_length_bounds stop addr (ltb→lt addr stop more) small in
            let front = take n bytes in
            let back = drop n bytes in
            let size : length front ≡ n = omega (arith, length-take n bytes) in
            let text = loop_text_more rounds stop cur_ela addr bytes more in
            let rest = loop_text rounds stop (addr >> 16) (addr + n) back in
            let (left, line', count', fits', first) =
              read_loop_ela start stop fuel cur_ela (addr >> 16)
                (data_line addr front ++ (newline ∷ rest)) line count g off (pre ++ old)
                (omega arith) set (omega (arith, ap length text)) in
            let (left'', line'', count'', fits'', second) =
              read_loop_data start stop left addr front rest line' count' g ((addr >> 16) * 65536)
                pre old (omega arith) ep (omega arith) (omega arith) (All-take n bytes hb)
                (omega arith) small hg (omega arith) fits' in
            ap (λ t. read_loop start stop fuel t (reader line count g off (pre ++ old))) text
            ∙ first
            ∙ second
            ∙ ap
                (λ t. read_loop start stop left'' rest (
                  reader line'' count'' t ((addr >> 16) * 65536)
                    ((pre ++ front) ++ drop (length front) old)))
                (omega arith)
            ∙ read_loop_text rounds left'' (addr + n) (addr >> 16) back line'' count'' (addr + n)
                ((addr >> 16) * 65536) (pre ++ front) (drop (length front) old)
                (omega (arith, length-append pre front)) (omega (arith, length-drop n bytes))
                (omega arith) (All-drop n bytes hb)
                (omega (arith, length-drop n bytes, length-drop (length front) old))
                (λ e. ap (λ t. t * 65536) e) (omega arith) (λ e. e) fits''
            ∙ ap (returned (sub32 stop start)) (bytes_parts n pre bytes old size)
        | inr done ↦
            read_loop_text_end (suc rounds) fuel addr cur_ela bytes line count g off pre old es
              (ground arith) hl fits
      ]
