-- ===== src/Ihex/Safety.antt =====
-- ihex_read over any file: it ends, it returns an address inside the range, and it writes outside
-- the buffer only for a record that wraps round 2 ^ 32.
use stm8flash.Common.{ℕ, ◌+◌, ◌-◌, ◌/◌, ◌≤◌, ◌<◌, ◌≡◌, refl}
use stm8flash.Common.{
  List, [], ◌∷◌, ◌++◌, none, some, ◌⊎◌, inl, inr, arith, false, Bool-cases, Option-cases,
}
use stm8flash.Common.{ltb, ◌==◌, drop, length, length-set, length-drop, u8, u32, sub32}
use stm8flash.Common.{==_iff, ne→==_false, ltb→lt, le→ltb_false}
use stm8flash.Stdio.{scan_hex, scan_char, strlen, store_line}
use stm8flash.Stdio.Lines.{length-store_line}
use stm8flash.Ihex.Reader.{Reader, Header, Round, Flow, ReadResult, leave, halt, next, stop, go}
use stm8flash.Ihex.Reader.{returned, parse_error, byte_error, below_start, past_end, fault, stuck}
use stm8flash.Ihex.Reader.{scan_header, scan_offset, data_byte, data_loop, last_index, read_record}
use stm8flash.Ihex.Reader.{read_line}
use stm8flash.Ihex.Record.{data_loop_next, strip_cr_lem}
use stm8flash.Ihex.Line.{read_line_record}

Round-cases :
    (x : Round) → (x ≡ leave) ⊎ ((e : ReadResult) × (x ≡ halt e)) ⊎ ((r : Reader) × (x ≡ next r))
Round-cases leave = inl refl
Round-cases (halt e) = inr (inl (e, refl))
Round-cases (next r) = inr (inr (r, refl))

pub Flow-cases : (x : Flow) → ((e : ReadResult) × (x ≡ stop e)) ⊎ ((r : Reader) × (x ≡ go r))
Flow-cases (stop e) = inl (e, refl)
Flow-cases (go r) = inr (r, refl)

-- What every step of the reader keeps: the sizes of the arrays, and the range of the addresses.
pub record IsSound (end size : ℕ) (r : Reader) : Type 0 where
  pub line_size : length r.line ≡ 523
  pub buf_size : length r.buf ≡ size
  pub greatest : r.greatest_addr ≤ end

module _ (start end : ℕ) (small : end < 4294967296) where
  data_byte_next :
      (h : Header) (i byte size : ℕ) (r r' : Reader)
      → data_byte start end h i byte r ≡ next r'
      → IsSound end size r
      → IsSound end size r' × (r'.offset ≡ r.offset) × (r'.line ≡ r.line)
  unfolding data_byte
  data_byte_next h i byte size r r' e s = ground (
    arith,
    length-set r.buf (u32 (sub32 (h.chunk_addr + r.offset) start + (i - 9) / 2)) (u8 byte),
  )

  -- A byte that goes outside the buffer belongs to a record that ends past 2 ^ 32.
  data_byte_fault :
      (h : Header) (i byte : ℕ) (r : Reader)
      → data_byte start end h i byte r ≡ halt fault
      → start ≤ end
      → end - start ≤ length r.buf
      → 4294967296 ≤ h.chunk_addr + r.offset + h.chunk_len
  unfolding data_byte
  data_byte_fault h i byte r e le room = ground arith

-- What a line may do: keep the reader sound, return an error message, or write outside the buffer
-- if the sum of address, offset and length that it works with reaches 2 ^ 32.
abbrev pub IsStop : Type 0 → ReadResult → Type 0
IsStop Outside (returned n buf) = ⊥
IsStop Outside (parse_error n) = Unit
IsStop Outside (byte_error n i) = Unit
IsStop Outside (below_start n) = Unit
IsStop Outside (past_end n) = Unit
IsStop Outside fault = Outside
IsStop Outside stuck = ⊥

abbrev pub IsFlow : ℕ → ℕ → Type 0 → Flow → Type 0
IsFlow end size Outside (stop e) = IsStop Outside e
IsFlow end size Outside (go r) = IsSound end size r

-- The record in the array ends past 2 ^ 32.
abbrev pub Wraps : List ℕ → ℕ → Type 0
Wraps array offset =
    (h : Header) × (off : ℕ) × (scan_header array ≡ some h)
    × (scan_offset h.chunk_type offset array ≡ some off)
    × (4294967296 ≤ h.chunk_addr + off + h.chunk_len)

module _ (start end : ℕ) (small : end < 4294967296) (le : start ≤ end) where
  data_byte_halt :
      (h : Header) (i byte : ℕ) (r : Reader) (e : ReadResult)
      → data_byte start end h i byte r ≡ halt e
      → end - start ≤ length r.buf
      → IsStop (4294967296 ≤ h.chunk_addr + r.offset + h.chunk_len) e
  data_byte_halt h i byte r (returned n b) eq room = unfold data_byte in ground arith
  data_byte_halt h i byte r (parse_error n) eq room = tt
  data_byte_halt h i byte r (byte_error n j) eq room = tt
  data_byte_halt h i byte r (below_start n) eq room = tt
  data_byte_halt h i byte r (past_end n) eq room = tt
  data_byte_halt h i byte r fault eq room = data_byte_fault start end small h i byte r eq le room
  data_byte_halt h i byte r stuck eq room = unfold data_byte in ground arith

  data_loop-IsFlow :
      (h : Header) (limit size : ℕ) (s : List ℕ) (i sum : ℕ) (r : Reader)
      → length s + i ≡ 523
      → limit ≤ 522
      → IsSound end size r
      → end - start ≤ size
      → h.chunk_addr + r.offset + h.chunk_len ≡ sum
      → IsFlow end size (4294967296 ≤ sum) (data_loop start end h limit s i r)
  unfolding data_loop
  data_loop-IsFlow h limit size [] i sum r fits short sound room es =
      rw (le→ltb_false i limit (omega arith), data_loop) sound
  data_loop-IsFlow h limit size (c ∷ []) i sum r fits short sound room es =
      rw (le→ltb_false i limit (omega arith), data_loop) sound
  data_loop-IsFlow h limit size (c ∷ d ∷ rest) i sum r fits short sound room es =
      elim (Bool-cases (ltb i limit)) [
        | inr done ↦ rw (done, data_loop) sound
        | inl more ↦ elim (Option-cases (scan_hex 2 (c ∷ d ∷ rest))) [
          | inl bad ↦ rw (more, bad, data_loop) tt
          | inr ((byte, t), good) ↦ elim (Round-cases (data_byte start end h i byte r)) [
            | inl e ↦ rw (more, good, e, data_loop) sound
            | inr (inl (x, e)) ↦
                rw (more, good, e, data_loop, ← es)
                  (data_byte_halt h i byte r x e (omega (arith, sound.buf_size)))
            | inr (inr (r', e)) ↦
                let (sound', off, _) = data_byte_next start end small h i byte size r r' e sound in
                rw
                  (data_loop_next start end h limit c d i byte rest t r r' (ltb→lt i limit more)
                    good e)
                  (data_loop-IsFlow h limit size rest (i + 2) sum r' (omega arith) short sound' room
                    (omega arith))
          ]
        ]
      ]

scan_header_other : (c : ℕ) (line : List ℕ) → (c == b':') ≡ false → scan_header (c ∷ line) ≡ none
unfolding scan_header
scan_header_other c line e = rw e

scan_header-strlen : (line : List ℕ) (h : Header) → scan_header line ≡ some h → 1 ≤ strlen line
unfolding scan_header scan_char strlen
scan_header-strlen [] h e = cc
scan_header-strlen (c ∷ line) h e = elim (Bool-cases (c == b':')) [
  | inl colon ↦
      let code : c ≡ b':' = (==_iff c b':').0 colon in
      rw (ne→==_false c 0 (λ z. absurd (omega arith)), strlen) (omega arith)
  | inr other ↦ cc (scan_header_other c line other)
]

strlen-append_le : (l t : List ℕ) → strlen (l ++ (0 ∷ t)) ≤ length l
unfolding strlen
strlen-append_le [] t = omega arith
strlen-append_le (c ∷ l) t = ground (arith, strlen-append_le l t)

read_record_bad :
    (start end : ℕ) (h : Header) (r : Reader)
    → scan_offset h.chunk_type r.offset r.line ≡ none
    → read_record start end h r ≡ stop (parse_error r.line_no)
unfolding read_record
read_record_bad start end h r e = rw (e, read_record)

read_record_good :
    (start end : ℕ) (h : Header) (r : Reader) (off : ℕ)
    → scan_offset h.chunk_type r.offset r.line ≡ some off
    → read_record start end h r
      ≡ data_loop start end h (last_index r.line) (drop 9 r.line) 9 (record r { offset = off })
unfolding read_record
read_record_good start end h r off e = rw (e, read_record)

read_line_bad :
    (start end : ℕ) (text : List ℕ) (r : Reader)
    → scan_header (store_line text r.line) ≡ none
    → read_line start end text r ≡ stop (parse_error (u32 (r.line_no + 1)))
unfolding read_line
read_line_bad start end text r e = rw (strip_cr_lem (store_line text r.line), e, read_line)

module _ (start end : ℕ) (small : end < 4294967296) (le : start ≤ end) where
  IsFlow-mono :
      {P Q : Type 0} (size : ℕ) (x : Flow) → (P → Q) → IsFlow end size P x → IsFlow end size Q x
  IsFlow-mono size (go r) f h = h
  IsFlow-mono size (stop (returned n b)) f h = h
  IsFlow-mono size (stop (parse_error n)) f h = tt
  IsFlow-mono size (stop (byte_error n i)) f h = tt
  IsFlow-mono size (stop (below_start n)) f h = tt
  IsFlow-mono size (stop (past_end n)) f h = tt
  IsFlow-mono size (stop fault) f h = f h
  IsFlow-mono size (stop stuck) f h = h

  read_record-IsFlow :
      (size : ℕ) (h : Header) (r : Reader)
      → scan_header r.line ≡ some h
      → strlen r.line ≤ 522
      → IsSound end size r
      → end - start ≤ size
      → IsFlow end size (Wraps r.line r.offset) (read_record start end h r)
  read_record-IsFlow size h r eh short sound room =
      elim (Option-cases (scan_offset h.chunk_type r.offset r.line)) [
        | inl bad ↦ rw (read_record_bad start end h r bad) tt
        | inr (off, good) ↦ rw (read_record_good start end h r off good) (
            IsFlow-mono size (data_loop start end h _ _ 9 _) (λ wraps. (h, off, eh, good, wraps))
              (data_loop-IsFlow start end small le h (last_index r.line) size (drop 9 r.line) 9
                (h.chunk_addr + off + h.chunk_len) (record r { offset = off })
                (omega (arith, length-drop 9 r.line, sound.line_size))
                (omega (arith, scan_header-strlen r.line h eh))
                (record {
                  line_size = sound.line_size;
                  buf_size = sound.buf_size;
                  greatest = sound.greatest;
                })
                room refl))
      ]

  -- One line of the file, read into a sound reader.
  pub read_line-IsFlow :
      (size : ℕ) (text : List ℕ) (r : Reader)
      → length text < 523
      → IsSound end size r
      → end - start ≤ size
      → IsFlow end size (Wraps (store_line text r.line) r.offset) (read_line start end text r)
  read_line-IsFlow size text r short sound room = elim (Option-cases (scan_header array)) [
    | inl bad ↦ rw (read_line_bad start end text r bad) tt
    | inr (h, good) ↦
        rw (read_line_record start end text r h good)
          (read_record-IsFlow size h r' good below sound' room)
  ]
    where
      array : List ℕ
      array = store_line text r.line

      r' : Reader
      r' = record r { line = array; line_no = u32 (r.line_no + 1) }

      below : strlen array ≤ 522
      below =
          let le_text = strlen-append_le text (drop (length text + 1) r.line) in
          unfold store_line in omega arith

      sound' : IsSound end size r'
      sound' = record {
        line_size = omega (arith, length-store_line text r.line, sound.line_size);
        buf_size = sound.buf_size;
        greatest = sound.greatest;
      }
