-- ===== src/Srec/RoundTrip.antt =====
-- srec_read over a file that srec_write has written.
use stm8flash.Common.{ℕ, ◌+◌, ◌-◌, ◌≤◌, ◌<◌, ◌≡◌, ap, ◌∙◌}
use stm8flash.Common.{List, [], ◌∷◌, ◌++◌, arith, Bool, true, false}
use stm8flash.Common.{drop, length, All}
use stm8flash.Common.{if◌then◌else◌, u32, ltb}
use stm8flash.Stdio.{newline}
use stm8flash.Stdio.Bytes.{IsByte}
use stm8flash.Stdio.Output.{ok}
use stm8flash.Srec.{srec_write, data_rectype}
use stm8flash.Srec.Text.{header_line, loop_text}
use stm8flash.Srec.Writer.{srec_write_ok}
use stm8flash.Srec.Reader.{returned, srec_read}
use stm8flash.Srec.Header.{reader}
use stm8flash.Srec.Array.{next_array}
use stm8flash.Srec.Ends.{read_line-header_line}
use stm8flash.Srec.Plain.{header_line-IsPlain, length-header_line}
use stm8flash.Srec.Loop.{read_loop_text, read_loop_line}

abbrev written : ℕ → ℕ → List ℕ → List ℕ
written start stop buf = header_line ++ (newline ∷ loop_text (stop - start) stop 0 start buf)

-- What srec_read makes of a file of srec_write, where `gap` are the first bytes of the buffer.
srec_read-written :
    (start stop : ℕ) (buf line gap old : List ℕ)
    → start + length buf ≡ stop
    → 1 ≤ length buf
    → length buf ≤ 2097120
    → stop + 2 < 4294967296
    → All IsByte buf
    → length gap ≡ data_rectype stop - 1
    → length buf ≤ length old
    → srec_read start stop line (written start stop buf) (gap ++ old)
      ≡ returned (length buf) ((gap ++ buf) ++ drop (length buf) old)
unfolding srec_read
srec_read-written start stop buf line gap old es full few small hb eg ho =
    let text = loop_text (stop - start) stop 0 start buf in
    let (left, enough, first) =
      read_loop_line start stop (length (written start stop buf)) header_line text
        (reader line 0 0 0 false 0 32 (gap ++ old))
        (reader (next_array header_line line) (u32 (0 + 1)) 0 0 false 0 32 (gap ++ old))
        header_line-IsPlain (omega (arith, length-header_line)) (omega arith)
        (read_line-header_line start stop line 0 0 0 false 0 32 (gap ++ old)) in
    first
    ∙ read_loop_text start stop small false 0 32 (stop - start) left start 0 buf
        (next_array header_line line) (u32 (0 + 1)) 0 gap old (omega arith) (omega arith) es
        (omega arith) hb ho (omega arith) (λ e. absurd (omega arith)) (omega arith) enough
    ∙ ap (λ t. returned t ((gap ++ buf) ++ drop (length buf) old)) (omega arith)

-- If no print fails, and the range ends below 0x10000, srec_write ends, and srec_read of the file
-- that it leaves, over the same range and into any buffer that is large enough, returns the number
-- of bytes, with the bytes at the front of the buffer and what stood behind them unchanged. The
-- range is not empty.
pub srec_read-srec_write :
    (accepts : List ℕ → List ℕ → Bool) (buf : List ℕ) (start stop : ℕ) (line old : List ℕ)
    → ((f t : List ℕ) → accepts f t ≡ true)
    → start + length buf ≡ stop
    → 1 ≤ length buf
    → stop < 65536
    → All IsByte buf
    → length buf ≤ length old
    → (file : List ℕ) × (srec_write accepts buf start stop ≡ ok file)
      × (srec_read start stop line file old ≡ returned (length buf) (buf ++ drop (length buf) old))
unfolding data_rectype
srec_read-srec_write accepts buf start stop line old all es full small hb ho = (
  written start stop buf,
  srec_write_ok accepts all buf start stop es (omega arith) (omega arith) hb,
  srec_read-written start stop buf line [] old es full (omega arith) (omega arith) hb (ground arith)
      ho,
)

-- Over a range that ends at 0x10000 or above, where srec_write takes records with addresses of 24
-- or 32 bits, srec_read returns the number of bytes too, but puts every byte one place too high in
-- the buffer or, from 0x1000000 on, two. No print fails, the range is not empty, it has 2097120
-- bytes at most, and the buffer has room for as many bytes more. The range ends below 2 ^ 32 - 2.
pub srec_read-wide :
    (accepts : List ℕ → List ℕ → Bool) (buf : List ℕ) (start stop : ℕ) (line gap old : List ℕ)
    → ((f t : List ℕ) → accepts f t ≡ true)
    → start + length buf ≡ stop
    → 1 ≤ length buf
    → length buf ≤ 2097120
    → 65536 ≤ stop
    → stop + 2 < 4294967296
    → All IsByte buf
    → length gap ≡ (if ltb stop 16777216 then 1 else 2)
    → length buf ≤ length old
    → (file : List ℕ) × (srec_write accepts buf start stop ≡ ok file)
      × (srec_read start stop line file (gap ++ old)
          ≡ returned (length buf) ((gap ++ buf) ++ drop (length buf) old))
unfolding data_rectype
srec_read-wide accepts buf start stop line gap old all es full few wide small hb eg ho = (
  written start stop buf,
  srec_write_ok accepts all buf start stop es (omega arith) few hb,
  srec_read-written start stop buf line gap old es full few small hb (ground arith) ho,
)
