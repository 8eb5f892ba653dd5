-- ===== src/Ihex/AnyFile.antt =====
-- ihex_read as a whole, over a file that need not come from ihex_write.
use stm8flash.Common.{ℕ, zero, suc, ◌-◌, ◌≤◌, ◌<◌, ◌≡◌, refl, List, some, arith}
use stm8flash.Common.{inl, inr, Option-cases, length, sub32}
use stm8flash.Stdio.{fgets, store_line}
use stm8flash.Stdio.Lines.{fgets-shrinks, length-fgets}
use stm8flash.Ihex.Reader.{Reader, ReadResult, go, returned, parse_error, byte_error}
use stm8flash.Ihex.Reader.{below_start, past_end, fault, stuck, read_line, read_loop, ihex_read}
use stm8flash.Ihex.Record.{reader}
use stm8flash.Ihex.Safety.{IsSound, IsStop, Wraps, Flow-cases, read_line-IsFlow}

-- The states that the loop over the lines passes through: what is left of the file, and the
-- variables.
pub data Reaches (start end : ℕ) (file : List ℕ) (r : Reader) : List ℕ → Reader → Type 0 where
  here : Reaches start end file r file r
  next :
      {file' : List ℕ} {r' : Reader} {text rest : List ℕ} {s : Reader}
      → Reaches start end file r file' r'
      → fgets 523 file' ≡ some (text, rest)
      → read_line start end text r' ≡ go s
      → Reaches start end file r rest s

-- What the function may come to: a return of an address in the range, with the whole buffer; an
-- error message; or a write outside the buffer, at a line whose record ends past 2 ^ 32.
abbrev pub IsResult : (start end size : ℕ) (file : List ℕ) (r : Reader) → ReadResult → Type 0
IsResult start end size file r (returned n buf) =
    (g : ℕ) × (n ≡ sub32 g start) × (g ≤ end) × (length buf ≡ size)
IsResult start end size file r (parse_error n) = Unit
IsResult start end size file r (byte_error n i) = Unit
IsResult start end size file r (below_start n) = Unit
IsResult start end size file r (past_end n) = Unit
IsResult start end size file r fault =
    (file' : List ℕ) × (r' : Reader) × (text : List ℕ) × (rest : List ℕ) × Reaches start end file r
      file' r'
    × (fgets 523 file' ≡ some (text, rest))
    × Wraps (store_line text r'.line) r'.offset
IsResult start end size file r stuck = ⊥

module _ (start end : ℕ) (small : end < 4294967296) (le : start ≤ end) (size : ℕ)
    (room : end - start ≤ size) (file : List ℕ) (r : Reader) where
  stopped :
      (file' : List ℕ) (r' : Reader) (text rest : List ℕ) (e : ReadResult)
      → Reaches start end file r file' r'
      → fgets 523 file' ≡ some (text, rest)
      → IsStop (Wraps (store_line text r'.line) r'.offset) e
      → IsResult start end size file r e
  stopped file' r' text rest (returned n b) reached read h = absurd h
  stopped file' r' text rest (parse_error n) reached read h = tt
  stopped file' r' text rest (byte_error n i) reached read h = tt
  stopped file' r' text rest (below_start n) reached read h = tt
  stopped file' r' text rest (past_end n) reached read h = tt
  stopped file' r' text rest fault reached read h = (file', r', text, rest, reached, read, h)
  stopped file' r' text rest stuck reached read h = h

  read_loop-IsResult :
      (fuel : ℕ) (file' : List ℕ) (r' : Reader)
      → Reaches start end file r file' r'
      → length file' ≤ fuel
      → IsSound end size r'
      → IsResult start end size file r (read_loop start end fuel file' r')
  unfolding read_loop
  read_loop-IsResult zero file' r' reached enough sound = elim (Option-cases (fgets 523 file')) [
    | inl ends ↦ rw (ends, read_loop) (r'.greatest_addr, refl, sound.greatest, sound.buf_size)
    | inr ((text, rest), read) ↦
        absurd (omega (arith, fgets-shrinks 523 file' text rest (omega arith) read))
  ]
  read_loop-IsResult (suc fuel) file' r' reached enough sound =
      elim (Option-cases (fgets 523 file')) [
        | inl ends ↦ rw (ends, read_loop) (r'.greatest_addr, refl, sound.greatest, sound.buf_size)
        | inr ((text, rest), read) ↦
            let short = length-fgets 523 file' text rest (omega arith) read in
            let flow = read_line-IsFlow start end small le size text r' short sound room in
            elim (Flow-cases (read_line start end text r')) [
              | inl (e, stops) ↦
                  rw (read, stops, read_loop)
                    (stopped file' r' text rest e reached read (rw stops at flow))
              | inr (s, goes) ↦
                  rw (read, goes, read_loop)
                    (read_loop-IsResult fuel rest s (next reached read goes)
                      (omega (arith, fgets-shrinks 523 file' text rest (omega arith) read))
                      (rw goes at flow))
            ]
      ]

-- On any file ihex_read comes to an end. If it returns, the value is an address at most `end`, less
-- `start`, and the buffer has kept its size; and it writes outside a buffer that holds the range
-- only at a line that it reaches whose record ends past 2 ^ 32.
pub ihex_read-IsResult :
    (start end : ℕ) (line file buf : List ℕ)
    → start ≤ end
    → end < 4294967296
    → length line ≡ 523
    → end - start ≤ length buf
    → IsResult start end
        (length buf)
        file
        (reader line 0 0 0 buf)
        (ihex_read start end line file buf)
unfolding ihex_read
ihex_read-IsResult start end line file buf le small array room =
    read_loop-IsResult start end small le (length buf) room file (reader line 0 0 0 buf)
      (length file) file (reader line 0 0 0 buf) here (omega arith)
      (record { line_size = array; buf_size = refl; greatest = omega arith })
