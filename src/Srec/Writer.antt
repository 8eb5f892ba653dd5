-- ===== src/Srec/Writer.antt =====
-- The loop of srec_write: the bounds of its records, that it ends, and the text that it writes.
use stm8flash.Common.{ℕ, zero, suc, ◌+◌, ◌-◌, ◌^◌, ◌≤◌, ◌<◌, ◌≡◌, ◌≢◌, refl, sym, ap, ap₂, ◌∙◌}
use stm8flash.Common.{
  List, [], ◌∷◌, ◌++◌, append_assoc, Bool, true, arith, Bool-cases, ◌⊎◌, ◌/◌, inl, inr,
}
use stm8flash.Common.{ltb, ltb→lt, le→ltb_false, take, drop, length, length-take}
use stm8flash.Common.{
  length-drop, length-append, take-append-drop, drop-append_length, All, u32, sub32,
}
use stm8flash.Stdio.{newline}
use stm8flash.Stdio.Bytes.{pre_front, IsByte, All-take, All-drop}
use stm8flash.Stdio.Output.{bind-ne-stuck, ok, stuck}
use stm8flash.Srec.{
  chunk_length, data_rectype, addr_width, write_bytes, write_data, write_loop, srec_write,
}
use stm8flash.Srec.Text.{IsKind, digits_of, srec_line, header_line, loop_text, data_rectype-cases}
use stm8flash.Srec.Text.{fprintf_unchecked_ok, write_data_ok, write_end_ok}

-- Every data record of srec_write that begins before `stop`, which fits 32 bits, holds from 1 to 32
-- bytes and ends at `stop` at the latest, and only the last is shorter than 32.
pub chunk_length-le :
    (stop addr : ℕ)
    → addr < stop
    → stop < 4294967296
    → (1 ≤ chunk_length stop addr)
      × (chunk_length stop addr ≤ 32)
      × (addr + chunk_length stop addr ≤ stop)
      × ((chunk_length stop addr ≡ 32) ⊎ (addr + chunk_length stop addr ≡ stop))
unfolding chunk_length
chunk_length-le stop addr h k = ground arith

module _ (accepts : List ℕ → List ℕ → Bool) where
  write_bytes-ne-stuck : (n : ℕ) (bytes file : List ℕ) → write_bytes accepts n bytes file ≢ stuck
  unfolding write_bytes
  write_bytes-ne-stuck zero bytes file = λ e. cc
  write_bytes-ne-stuck (suc n) [] file = λ e. cc
  write_bytes-ne-stuck (suc n) (b ∷ bytes) file = write_bytes-ne-stuck n bytes _

  write_data-ne-stuck :
      (kind width n addr : ℕ) (bytes file : List ℕ)
      → write_data accepts kind width n addr bytes file ≢ stuck
  unfolding write_data
  write_data-ne-stuck kind width n addr bytes file =
      bind-ne-stuck (write_bytes accepts n bytes _) _ (write_bytes-ne-stuck n bytes _)
        (λ file' e. cc)

  write_loop-ne-stuck :
      (fuel : ℕ) (buf : List ℕ) (start stop num addr : ℕ) (file : List ℕ)
      → stop < 4294967296
      → stop ≤ addr + fuel
      → write_loop accepts fuel buf start stop num addr file ≢ stuck
  unfolding write_loop
  write_loop-ne-stuck zero buf start stop num addr file small enough =
      rw (le→ltb_false addr stop (omega arith)) (λ e. cc)
  write_loop-ne-stuck (suc fuel) buf start stop num addr file small enough =
      elim (Bool-cases (ltb addr stop)) [
        | inl more ↦
            let (n_pos, n_le, in_range, full) =
              chunk_length-le stop addr (ltb→lt addr stop more) small in
            rw more (
              bind-ne-stuck
                (write_data accepts (data_rectype stop) (addr_width stop) (chunk_length stop addr)
                  addr _ file)
                _
                (write_data-ne-stuck (data_rectype stop) (addr_width stop) (chunk_length stop addr)
                  addr _ file)
                (λ with_data.
                  write_loop-ne-stuck fuel buf start stop (u32 (num + 1))
                    (u32 (addr + chunk_length stop addr)) with_data small (omega arith)))
        | inr done ↦ rw done (λ e. cc)
      ]

  -- srec_write ends on every buffer and range of 32-bit addresses, whatever the disk does.
  pub srec_write-ne-stuck :
      (buf : List ℕ) (start stop : ℕ)
      → stop < 4294967296
      → srec_write accepts buf start stop ≢ stuck
  unfolding srec_write
  srec_write-ne-stuck buf start stop small =
      write_loop-ne-stuck (stop - start) buf start stop 0 start _ small (omega arith)

regroup :
    (file a : List ℕ) (c : ℕ) (d : List ℕ) → (file ++ (a ++ (c ∷ []))) ++ d ≡ file ++ (a ++ (c ∷ d))
regroup file a c d = simp append_assoc

module _ (accepts : List ℕ → List ℕ → Bool) (all : (f t : List ℕ) → accepts f t ≡ true) where
  write_data_front :
      (kind addr n : ℕ) (rest file : List ℕ)
      → IsKind kind
      → addr < 256 ^ (kind + 1)
      → n ≤ 32
      → length (take n rest) ≡ n
      → All IsByte rest
      → write_data accepts kind (digits_of kind) n addr rest file
        ≡ ok (file ++ (srec_line kind addr (take n rest) ++ (newline ∷ [])))
  write_data_front kind addr n rest file k small short fits h =
      ap (λ t. write_data accepts kind (digits_of kind) t addr rest file) (sym fits)
      ∙ ap (λ t. write_data accepts kind (digits_of kind) (length (take n rest)) addr t file)
          (sym (take-append-drop n rest))
      ∙ write_data_ok accepts all kind addr (take n rest) (drop n rest) file k small (omega arith)
          (All-take n rest h)

  -- The buffer is `pre ++ rest`, where `pre` has been written, in `num` records.
  write_loop_ok :
      (fuel start stop num addr : ℕ) (pre rest file : List ℕ)
      → start + length pre ≡ addr
      → addr + length rest ≡ stop
      → stop < 4294967296
      → stop ≤ addr + fuel
      → num + (length rest + 31) / 32 < 65536
      → All IsByte rest
      → write_loop accepts fuel (pre ++ rest) start stop num addr file
        ≡ ok (file ++ loop_text fuel stop num addr rest)
  unfolding write_loop loop_text
  write_loop_ok zero start stop num addr pre rest file ep er small enough few h =
      rw
        (
          le→ltb_false addr stop (omega arith),
          widths,
          write_end_ok accepts all (data_rectype stop) num (pre ++ rest) file kind (omega arith),
        )
        refl
    where
      kind : IsKind (data_rectype stop)
      kind = (data_rectype-cases stop small).0

      widths : addr_width stop ≡ digits_of (data_rectype stop)
      widths = (data_rectype-cases stop small).1
  write_loop_ok (suc fuel) start stop num addr pre rest file ep er small enough few h =
      let (kind, widths, fits_kind) = data_rectype-cases stop small in
      elim (Bool-cases (ltb addr stop)) [
        | inl more ↦
            let (n_pos, n_le, in_range, full) =
              chunk_length-le stop addr (ltb→lt addr stop more) small in
            let n = chunk_length stop addr in
            let front = take n rest in
            let back = drop n rest in
            let file' = file ++ (srec_line (data_rectype stop) addr front ++ (newline ∷ [])) in
            let fits : length front ≡ n = omega (arith, length-take n rest) in
            rw
              (
                more,
                widths,
                drop-append_length pre rest (sub32 addr start) (omega arith),
                write_data_front (data_rectype stop) addr n rest file kind (omega arith) n_le fits
                    h,
              )
              (ap₂ (λ t a. write_loop accepts fuel t start stop (u32 (num + 1)) a file')
                  (pre_front n pre rest) (omega arith)
                ∙ ap
                    (λ m.
                      write_loop accepts fuel ((pre ++ front) ++ back) start stop m (addr + n)
                        file')
                    (omega arith)
                ∙ write_loop_ok fuel start stop (num + 1) (addr + n) (pre ++ front) back file'
                    (omega (arith, length-append pre front)) (omega (arith, length-drop n rest))
                    small (omega arith) (omega (arith, length-drop n rest)) (All-drop n rest h)
                ∙ ap ok (regroup file _ _ _))
        | inr done ↦
            rw
              (
                done,
                widths,
                write_end_ok accepts all (data_rectype stop) num (pre ++ rest) file kind
                    (omega arith),
              )
              refl
      ]

  -- With no failing print, srec_write leaves the text of `loop_text` in the file.
  pub srec_write_ok :
      (buf : List ℕ) (start stop : ℕ)
      → start + length buf ≡ stop
      → stop < 4294967296
      → length buf ≤ 2097120
      → All IsByte buf
      → srec_write accepts buf start stop
        ≡ ok (header_line ++ (newline ∷ loop_text (stop - start) stop 0 start buf))
  unfolding srec_write header_line
  srec_write_ok buf start stop e small few h = rw (fprintf_unchecked_ok accepts all [] _) (
      write_loop_ok (stop - start) start stop 0 start [] buf _ (omega arith) e small (omega arith)
        (omega arith) h)
