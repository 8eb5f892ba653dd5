-- ===== src/Ihex/RoundTrip.antt =====
-- ihex_read over a file that ihex_write has written.
use stm8flash.Stdio.Bytes.{IsByte}
use stm8flash.Common.{ℕ, ◌+◌, ◌-◌, ◌*◌, ◌≤◌, ◌<◌, ◌≡◌, ap, ◌∙◌}
use stm8flash.Common.{List, [], ◌++◌, arith, Bool, true}
use stm8flash.Common.{drop, length, All}
use stm8flash.Common.{◌>>◌}
use stm8flash.Ihex.{ihex_write}
use stm8flash.Stdio.Output.{ok}
use stm8flash.Ihex.Text.{loop_text}
use stm8flash.Ihex.Writer.{ihex_write_ok, first_ela}
use stm8flash.Ihex.Reader.{returned, ihex_read}
use stm8flash.Ihex.Loop.{read_loop_text}

first_ela_unset :
    (start stop : ℕ)
    → start < stop
    → stop < 4294967296
    → first_ela stop ≡ start >> 16
    → 0 ≡ (start >> 16) * 65536
first_ela_unset start stop h k = ground arith

-- If no print fails, ihex_write returns 0, and ihex_read of the file that it leaves, over the same
-- range and into any buffer that is large enough, returns the number of bytes, with the bytes at
-- the front of the buffer and what stood behind them unchanged. The range is not empty and its
-- addresses fit 32 bits.
pub ihex_read-ihex_write :
    (accepts : List ℕ → List ℕ → Bool) (buf : List ℕ) (start stop : ℕ) (line old : List ℕ)
    → ((f t : List ℕ) → accepts f t ≡ true)
    → start + length buf ≡ stop
    → 1 ≤ length buf
    → stop < 4294967296
    → All IsByte buf
    → length buf ≤ length old
    → (file : List ℕ) × (ihex_write accepts buf start stop ≡ ok file)
      × (ihex_read start stop line file old ≡ returned (length buf) (buf ++ drop (length buf) old))
unfolding ihex_read
ihex_read-ihex_write accepts buf start stop line old all es full small hb ho = (
  loop_text (stop - start) stop (first_ela stop) start buf,
  ihex_write_ok accepts all buf start stop es small hb,
  read_loop_text start stop small (stop - start)
        (length (loop_text (stop - start) stop (first_ela stop) start buf)) start (first_ela stop)
        buf line 0 0 0 [] old (omega arith) es (omega arith) hb ho
        (first_ela_unset start stop (omega arith) small) (omega arith) (λ e. absurd (omega arith))
        (omega arith)
      ∙ ap (λ t. returned t (buf ++ drop (length buf) old)) (omega arith),
)
