-- ===== src/Srec/AnyFile.antt =====
-- srec_read over any file: it ends, it returns an address inside the range, and it goes outside its
-- arrays only at some records.
use stm8flash.Common.{
  ℕ, zero, suc, ◌+◌, ◌-◌, ◌*◌, ◌/◌, ◌≤◌, ◌<◌, ◌≡◌, refl, inl, inr, List, some, false, ◌∙◌, arith,
  Bool-cases, Option-cases, by_if, not, ltb, ltb→lt, ◌==◌, ◌||◌, ◌&&◌, length, sub32, u32, ◌>>◌,
}
use stm8flash.Stdio.{fgets, store_line}
use stm8flash.Stdio.Lines.{fgets-shrinks, length-fgets, length-store_line}
use stm8flash.Srec.Reader.{
  Reader, Header, Flow, ReadResult, go, returned, parse_error, s5_error, byte_error, below_start,
  past_end, no_checksum, bad_checksum, count_mismatch, fault, stuck, read_record, is_data_type,
  skip_line, first_char, scan_header, read_line, finish, read_loop, srec_read,
}
use stm8flash.Srec.Header.{reader}
use stm8flash.Srec.Safety.{
  Flow-cases, IsSound, IsStop, IsFlow, stop-IsStop, go-IsSound, stops, goes, Escapes, behind_line,
  wraps, too_far,
}
use stm8flash.Srec.AnyChunk.{read_chunk-IsFlow}

-- The states that the loop over the lines passes through: what is left of the file, and the
-- variables.
pub data Reaches (start end : ℕ) (file : List ℕ) (r : Reader) : List ℕ → Reader → Type 0 where
  here : Reaches start end file r file r
  next :
      {file' : List ℕ} {r' : Reader} {text rest : List ℕ} {s : Reader}
      → Reaches start end file r file' r'
      → fgets 516 file' ≡ some (text, rest)
      → read_line start end text r' ≡ go s
      → Reaches start end file r rest s

-- The array holds such a record.
abbrev pub HasEscape : ℕ → ℕ → ℕ → List ℕ → Type 0
HasEscape start end size array =
    (h : Header) × (scan_header array ≡ some h) × Escapes start end size h

-- What the function may come to: a return of an address in the range, less `start`, with the whole
-- buffer; an error message; or an access outside an array, at a line that it reaches and whose
-- record escapes.
abbrev pub IsResult : (start end size : ℕ) (file : List ℕ) (r : Reader) → ReadResult → Type 0
IsResult start end size file r (returned n buf) =
    (g : ℕ) × (n ≡ sub32 g start) × (g ≤ end) × (length buf ≡ size)
IsResult start end size file r fault =
    (file' : List ℕ) × (r' : Reader) × (text : List ℕ) × (rest : List ℕ) × Reaches start end file r
      file' r'
    × (fgets 516 file' ≡ some (text, rest))
    × HasEscape start end size (store_line text r'.line)
IsResult start end size file r stuck = ⊥
IsResult start end size file r _ = Unit

module _ (start end size : ℕ) (small : end < 4294967296) (le : start ≤ end)
    (room : end - start ≤ size) where
  -- A store behind the buffer, in a record that the array of the line holds.
  store-Escapes :
      (h : Header) (a n i : ℕ)
      → a ≡ h.addr >> (8 * (3 - h.kind))
      → h.len ≡ n + (h.kind + 2)
      → 1 ≤ h.kind
      → i < 2 * (h.len + 1)
      → 2 * (h.kind + 3) ≤ i
      → start ≤ a
      → u32 (a + n) ≤ end
      → size ≤ u32 (sub32 a start + sub32 i 8 / 2)
      → h.len < 258
      → Escapes start end size h
  store-Escapes h a n i e len data_kind to from low inside over short =
      elim (Bool-cases (ltb (a + n) 4294967296)) [
        | inl below ↦
            let fits : a + n < 4294967296 = ltb→lt (a + n) 4294967296 below in
            let top : a + n ≤ end = omega (arith, fits) in
            let behind : size < a - start + n + (h.kind - 1) = omega (arith, fits) in
            too_far n len (omega arith) (omega (arith, e)) (omega (arith, e))
        | inr above ↦
            let reaches : 4294967296 ≤ a + n = ground arith in wraps n len (omega (arith, e))
      ]

  data-Escapes :
      (h : Header) (a i : ℕ)
      → a ≡ h.addr >> (8 * (3 - h.kind))
      → 1 ≤ h.kind
      → h.kind ≤ 3
      → 2 * (h.kind + 3) ≤ i
      → i < u32 (2 * u32 (h.kind + 3 + sub32 h.len (h.kind + 2)))
      → start ≤ a
      → u32 (a + sub32 h.len (h.kind + 2)) ≤ end
      → size ≤ u32 (sub32 a start + sub32 i 8 / 2)
      → Escapes start end size h
  data-Escapes h a i e data_kind few from to low inside over =
      elim (Bool-cases (ltb (2 * (h.len + 1)) 516)) [
        | inr long ↦ behind_line (ground arith)
        | inl short ↦
            let bound : 2 * (h.len + 1) < 516 = ltb→lt (2 * (h.len + 1)) 516 short in
            let n : ℕ = sub32 h.len (h.kind + 2) in
            let len : h.len ≡ n + (h.kind + 2) = omega (arith, bound) in
            store-Escapes h a n i e len data_kind (omega (arith, bound, len)) from low inside over
              (omega (arith, bound))
      ]

  read_record-IsFlow :
      (Outside : Type 0) (h : Header) (r : Reader)
      → (Escapes start end size h → Outside)
      → IsSound end size r
      → IsFlow end size Outside (read_record start end h r)
  unfolding read_record is_data_type
  read_record-IsFlow Outside h r escaped sound =
      by_if P (h.kind == 0 || h.kind == 4) (λ e. goes sound)
        (λ e.
          by_if P (h.kind == 5)
            (λ e.
              by_if P (not (h.len == 3)) (λ e. stops tt)
                (λ e.
                  read_chunk-IsFlow start end size _ Outside (λ far. absurd (omega arith))
                    (λ i from to d low inside over. absurd cc) _
                    (record {
                      line_size = sound.line_size;
                      buf_size = sound.buf_size;
                      greatest = sound.greatest;
                    })))
            (λ e.
              by_if P (is_data_type h.kind)
                (λ data_kind.
                  read_chunk-IsFlow start end size _ Outside
                    (λ far. escaped (behind_line (ground arith)))
                    (λ i from to d low inside over. escaped (
                      data-Escapes h (h.addr >> (8 * (3 - h.kind))) i refl (ground arith)
                        (ground arith) from to low inside over))
                    r sound)
                (λ e. goes sound)))
    where
      P : Flow → Type 0
      P = IsFlow end size Outside

  skip_line-IsFlow :
      {P : Type 0} (r : Reader) → IsSound end size r → IsFlow end size P (skip_line r)
  unfolding skip_line
  skip_line-IsFlow {P = P} r sound =
      by_if (IsFlow end size P) (first_char r.line r.temp == b'S') (λ e. stops tt)
        (λ e. goes (record {
          line_size = sound.line_size;
          buf_size = sound.buf_size;
          greatest = sound.greatest;
        }))

  read_line-IsFlow :
      (text : List ℕ) (r : Reader)
      → length text < 516
      → IsSound end size r
      → IsFlow end size
          (HasEscape start end size (store_line text r.line))
          (read_line start end text r)
  unfolding read_line
  read_line-IsFlow text r short sound =
      let kept : IsSound end size
          (record r { line = store_line text r.line; line_no = u32 (r.line_no + 1) }) =
        record {
          line_size =
              length-store_line text r.line (omega (arith, sound.line_size)) ∙ sound.line_size;
          buf_size = sound.buf_size;
          greatest = sound.greatest;
        } in
      elim (Option-cases (scan_header (store_line text r.line))) [
        | inl bad ↦ rw (bad, read_line) (skip_line-IsFlow _ kept)
        | inr (h, good) ↦
            rw (good, read_line) (read_record-IsFlow _ h _ (λ escape. (h, refl, escape)) kept)
      ]

module _ (start end : ℕ) (small : end < 4294967296) (le : start ≤ end) (size : ℕ)
    (room : end - start ≤ size) (file : List ℕ) (r : Reader) where
  stopped :
      (file' : List ℕ) (r' : Reader) (text rest : List ℕ) (e : ReadResult)
      → Reaches start end file r file' r'
      → fgets 516 file' ≡ some (text, rest)
      → IsStop (HasEscape start end size (store_line text r'.line)) e
      → IsResult start end size file r e
  stopped file' r' text rest (returned n b) reached read h = absurd h
  stopped file' r' text rest (parse_error n) reached read h = tt
  stopped file' r' text rest (s5_error n) reached read h = tt
  stopped file' r' text rest (byte_error n i) reached read h = tt
  stopped file' r' text rest (below_start a n) reached read h = tt
  stopped file' r' text rest (past_end a d n) reached read h = tt
  stopped file' r' text rest (no_checksum n i) reached read h = tt
  stopped file' r' text rest (bad_checksum n) reached read h = tt
  stopped file' r' text rest (count_mismatch n m) reached read h = tt
  stopped file' r' text rest fault reached read h = (file', r', text, rest, reached, read, h)
  stopped file' r' text rest stuck reached read h = h

  finish-IsResult :
      (r' : Reader) → IsSound end size r' → IsResult start end size file r (finish start end r')
  unfolding finish
  finish-IsResult r' sound =
      elim (Bool-cases
        (r'.found_s5_rec && not (r'.number_of_records == r'.expected_data_records))) [
          | inl other ↦ rw (other, finish) tt
          | inr same ↦ rw (same, finish) (r'.greatest_addr, refl, sound.greatest, sound.buf_size)
        ]

  read_loop-IsResult :
      (fuel : ℕ) (file' : List ℕ) (r' : Reader)
      → Reaches start end file r file' r'
      → length file' ≤ fuel
      → IsSound end size r'
      → IsResult start end size file r (read_loop start end fuel file' r')
  unfolding read_loop
  read_loop-IsResult zero file' r' reached enough sound = elim (Option-cases (fgets 516 file')) [
    | inl ends ↦ rw (ends, read_loop) (finish-IsResult r' sound)
    | inr ((text, rest), read) ↦
        absurd (omega (arith, fgets-shrinks 516 file' text rest (omega arith) read))
  ]
  read_loop-IsResult (suc fuel) file' r' reached enough sound =
      elim (Option-cases (fgets 516 file')) [
        | inl ends ↦ rw (ends, read_loop) (finish-IsResult r' sound)
        | inr ((text, rest), read) ↦
            let short = length-fgets 516 file' text rest (omega arith) read in
            let flow = read_line-IsFlow start end size small le room text r' short sound in
            elim (Flow-cases (read_line start end text r')) [
              | inl (e, stopping) ↦
                  rw (read, stopping, read_loop)
                    (stopped file' r' text rest e reached read (stop-IsStop (rw stopping at flow)))
              | inr (s, gone) ↦
                  rw (read, gone, read_loop)
                    (read_loop-IsResult fuel rest s (next reached read gone)
                      (omega (arith, fgets-shrinks 516 file' text rest (omega arith) read))
                      (go-IsSound (rw gone at flow)))
            ]
      ]

-- On any file srec_read comes to an end. If it returns, the value is an address at most `end`, less
-- `start`, and the buffer has kept its size; and it goes outside the array of the line or a buffer
-- that holds the range only at a line that it reaches and whose record has a length of 257 or more,
-- or holds data that end past 2 ^ 32, or has an address of three or four bytes and data that, one
-- or two places too far on, go past the buffer.
pub srec_read-IsResult :
    (start end : ℕ) (line file buf : List ℕ)
    → start ≤ end
    → end < 4294967296
    → length line ≡ 516
    → end - start ≤ length buf
    → IsResult start end
        (length buf)
        file
        (reader line 0 0 0 false 0 32 buf)
        (srec_read start end line file buf)
unfolding srec_read
srec_read-IsResult start end line file buf le small array room =
    read_loop-IsResult start end small le (length buf) room file (reader line 0 0 0 false 0 32 buf)
      (length file) file (reader line 0 0 0 false 0 32 buf) here (omega arith)
      (record { line_size = array; buf_size = refl; greatest = omega arith })
