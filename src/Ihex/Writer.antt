-- ===== src/Ihex/Writer.antt =====
-- The loop of ihex_write: the bounds of its records, that it ends, and the text that it writes.
use stm8flash.Stdio.Bytes.{pre_front, IsByte, All-take, All-drop}
use stm8flash.Common.{ℕ, zero, suc, ◌+◌, ◌-◌, ◌%◌, ◌≤◌, ◌<◌, ◌≡◌, ◌≢◌, sym, ap, ap₂, ◌∙◌}
use stm8flash.Common.{List, [], ◌∷◌, ◌++◌, append_assoc, Bool, true, arith, Bool-cases, inl, inr}
use stm8flash.Common.{
  ltb, ◌==◌, ltb→lt, le→ltb_false, if◌then◌else◌, take, drop, length, length-take,
}
use stm8flash.Common.{length-drop, length-append, take-append-drop, drop-append_length, All, u32}
use stm8flash.Common.{sub32, ◌>>◌}
use stm8flash.Stdio.{newline}
use stm8flash.Ihex.{write_bytes, write_ela, write_data, write_end}
use stm8flash.Stdio.Output.{bind-ne-stuck, ok, stuck, fprintf}
use stm8flash.Ihex.{write_loop, chunk_length, ihex_write}
use stm8flash.Ihex.Text.{ela_text, data_line, loop_text, write_ela_ok, write_data_ok}
use stm8flash.Ihex.Text.{write_end_ok}

-- Every data record of ihex_write that begins before `stop`, which fits 32 bits, holds from 1 to 32
-- bytes, ends at `stop` at the latest, and lies in one block of 64k.
pub chunk_length_bounds :
    (stop addr : ℕ)
    → addr < stop
    → stop < 4294967296
    → (1 ≤ chunk_length stop addr)
      × (chunk_length stop addr ≤ 32)
      × (addr + chunk_length stop addr ≤ stop)
      × (addr % 65536 + chunk_length stop addr ≤ 65536)
unfolding chunk_length
chunk_length_bounds stop addr h k = ground arith

module _ (accepts : List ℕ → List ℕ → Bool) where
  fprintf-ne-stuck : (file text : List ℕ) → fprintf accepts file text ≢ stuck
  unfolding fprintf
  fprintf-ne-stuck file text = ground arith

  write_bytes-ne-stuck : (n : ℕ) (bytes file : List ℕ) → write_bytes accepts n bytes file ≢ stuck
  unfolding write_bytes
  write_bytes-ne-stuck zero bytes file = λ e. cc
  write_bytes-ne-stuck (suc n) [] file = λ e. cc
  write_bytes-ne-stuck (suc n) (b ∷ bytes) file =
      bind-ne-stuck (fprintf accepts file _) _ (fprintf-ne-stuck file _)
        (λ file'. write_bytes-ne-stuck n bytes file')

  write_ela-ne-stuck :
      (cur_ela block : ℕ) (file : List ℕ) → write_ela accepts cur_ela block file ≢ stuck
  unfolding write_ela
  write_ela-ne-stuck cur_ela block file = elim (Bool-cases (cur_ela == block)) [
    | inl same ↦ rw same (λ e. cc)
    | inr other ↦ rw other (fprintf-ne-stuck file _)
  ]

  write_data-ne-stuck :
      (n addr : ℕ) (bytes file : List ℕ) → write_data accepts n addr bytes file ≢ stuck
  unfolding write_data
  write_data-ne-stuck n addr bytes file =
      bind-ne-stuck (write_bytes accepts n bytes _) _ (write_bytes-ne-stuck n bytes _)
        (λ file'. fprintf-ne-stuck file' _)

  write_loop-ne-stuck :
      (fuel : ℕ) (buf : List ℕ) (start stop cur_ela addr : ℕ) (file : List ℕ)
      → stop < 4294967296
      → stop ≤ addr + fuel
      → write_loop accepts fuel buf start stop cur_ela addr file ≢ stuck
  unfolding write_loop write_end
  write_loop-ne-stuck zero buf start stop cur_ela addr file small enough =
      rw (le→ltb_false addr stop (omega arith)) (fprintf-ne-stuck file _)
  write_loop-ne-stuck (suc fuel) buf start stop cur_ela addr file small enough =
      elim (Bool-cases (ltb addr stop)) [
        | inl more ↦
            let (n_pos, n_le, in_range, in_block) =
              chunk_length_bounds stop addr (ltb→lt addr stop more) small in
            rw more (
              bind-ne-stuck (write_ela accepts cur_ela (addr >> 16) file) _
                (write_ela-ne-stuck cur_ela (addr >> 16) file)
                (λ with_ela.
                  bind-ne-stuck (write_data accepts (chunk_length stop addr) addr _ with_ela) _
                    (write_data-ne-stuck (chunk_length stop addr) addr _ with_ela)
                    (λ with_data.
                      write_loop-ne-stuck fuel buf start stop (addr >> 16)
                        (u32 (addr + chunk_length stop addr)) with_data small (omega arith))))
        | inr done ↦ rw done (fprintf-ne-stuck file _)
      ]

  -- ihex_write ends on every buffer and range of 32-bit addresses, whatever the disk does.
  pub ihex_write-ne-stuck :
      (buf : List ℕ) (start stop : ℕ)
      → stop < 4294967296
      → ihex_write accepts buf start stop ≢ stuck
  unfolding ihex_write
  ihex_write-ne-stuck buf start stop small =
      write_loop-ne-stuck (stop - start) buf start stop _ start [] small (omega arith)

regroup :
    (file a b : List ℕ) (c : ℕ) (d : List ℕ)
    → ((file ++ a) ++ (b ++ (c ∷ []))) ++ d ≡ file ++ (a ++ (b ++ (c ∷ d)))
regroup file a b c d = simp append_assoc

-- The block of the record that is taken as written already.
abbrev pub first_ela : ℕ → ℕ
first_ela stop = if ltb 65535 stop then 4294967295 else 0

module _ (accepts : List ℕ → List ℕ → Bool) (all : (f t : List ℕ) → accepts f t ≡ true) where
  write_data_front :
      (addr n : ℕ) (rest file : List ℕ)
      → n < 256
      → length (take n rest) ≡ n
      → All IsByte rest
      → write_data accepts n addr rest file
        ≡ ok (file ++ (data_line addr (take n rest) ++ (newline ∷ [])))
  write_data_front addr n rest file short fits h =
      ap (λ t. write_data accepts t addr rest file) (sym fits)
      ∙ ap (λ t. write_data accepts (length (take n rest)) addr t file)
          (sym (take-append-drop n rest))
      ∙ write_data_ok accepts all addr (take n rest) (drop n rest) file (omega arith)
          (All-take n rest h)

  -- The buffer is `pre ++ rest`, where `pre` has been written.
  write_loop_ok :
      (fuel start stop cur_ela addr : ℕ) (pre rest file : List ℕ)
      → start + length pre ≡ addr
      → addr + length rest ≡ stop
      → stop < 4294967296
      → stop ≤ addr + fuel
      → All IsByte rest
      → write_loop accepts fuel (pre ++ rest) start stop cur_ela addr file
        ≡ ok (file ++ loop_text fuel stop cur_ela addr rest)
  unfolding write_loop loop_text
  write_loop_ok zero start stop cur_ela addr pre rest file ep er small enough h =
      rw (le→ltb_false addr stop (omega arith)) (write_end_ok accepts all file)
  write_loop_ok (suc fuel) start stop cur_ela addr pre rest file ep er small enough h =
      elim (Bool-cases (ltb addr stop)) [
        | inl more ↦
            let (n_pos, n_le, in_range, in_block) =
              chunk_length_bounds stop addr (ltb→lt addr stop more) small in
            let n = chunk_length stop addr in
            let front = take n rest in
            let back = drop n rest in
            let file' =
              (file ++ ela_text cur_ela (addr >> 16)) ++ (data_line addr front ++ (newline ∷ [])) in
            let fits : length front ≡ n = omega (arith, length-take n rest) in
            rw
              (
                more,
                drop-append_length pre rest (sub32 addr start) (omega arith),
                write_ela_ok accepts all cur_ela (addr >> 16) file (omega arith),
                write_data_front addr n rest _ (omega arith) fits h,
              )
              (ap₂ (λ t a. write_loop accepts fuel t start stop (addr >> 16) a file')
                  (pre_front n pre rest) (omega arith)
                ∙ write_loop_ok fuel start stop (addr >> 16) (addr + n) (pre ++ front) back file'
                    (omega (arith, length-append pre front)) (omega (arith, length-drop n rest))
                    small (omega arith) (All-drop n rest h)
                ∙ ap ok (regroup file _ _ _ _))
        | inr done ↦ rw done (write_end_ok accepts all file)
      ]

  -- With no failing print, ihex_write leaves the text of `loop_text` in the file.
  pub ihex_write_ok :
      (buf : List ℕ) (start stop : ℕ)
      → start + length buf ≡ stop
      → stop < 4294967296
      → All IsByte buf
      → ihex_write accepts buf start stop
        ≡ ok (loop_text (stop - start) stop (first_ela stop) start buf)
  unfolding ihex_write
  ihex_write_ok buf start stop e small h =
      write_loop_ok (stop - start) start stop (first_ela stop) start [] buf [] (omega arith) e small
        (omega arith) h
