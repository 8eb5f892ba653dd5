-- ===== src/StlinkV2/Read.antt =====
-- The reading of a range through the adapter's buffer.
use stm8flash.Common.{ℕ, zero, suc, ◌+◌, ◌-◌, ◌≤◌, ◌≡◌, refl, sym, ap, ap₂, ◌∙◌, List, ◌++◌, arith}
use stm8flash.Common.{ltb, le→ltb_false, if◌then◌else◌, Bool-cases, inl, inr, u32}
use stm8flash.Programmer.{pure, Message}
use stm8flash.Programmer.Ends.{Ends, Ends-and_then, Ends-ok}
use stm8flash.Programmer.Memory.{bytes_at, bytes_at-append}
use stm8flash.Programmer.Chip.{Chip, Kept}
use stm8flash.StlinkV2.{Adapter}
use stm8flash.StlinkV2.Link.{ReadsArray}
use stm8flash.StlinkV2.Swim.{read_memory, read_loop, stlink2_swim_read_range}

abbrev pub Never : {S : Type 0} → Message → S → Type 0
Never message s = ⊥

pub Kept-trans :
    {S : Type 0} (chip : Chip S) (s t u : S) → Kept chip s t → Kept chip t u → Kept chip s u
Kept-trans chip s t u h k = record {
  memory = k.memory ∙ h.memory;
  unlocked = k.unlocked ∙ h.unlocked;
}

module _ {S : Type 0} (chip : Chip S) where
  -- What the loop gives: the bytes of the memory, which is as before.
  abbrev pub IsRead : ℕ → ℕ → S → List ℕ → S → Type 0
  IsRead start n s bytes t = (bytes ≡ bytes_at (chip.memory s) start n) × Kept chip s t

module _ {S : Type 0} (adapter : Adapter S) (chip : Chip S) (read_buf_size : ℕ)
    (array_read : ReadsArray adapter chip read_buf_size)
    (read_kept : (a : ℕ) (s : S) → Kept chip s (chip.after_read a s))
    (some_room : 1 ≤ read_buf_size) where
  read_loop-IsRead :
      (fuel start remaining : ℕ) (s : S)
      → remaining ≤ fuel
      → chip.array_start ≤ start
      → start + remaining ≤ chip.array_end
      → chip.array_end ≤ 16777216
      → Ends
          (IsRead chip start remaining s)
          Never
          (read_loop adapter read_buf_size fuel start remaining s)
  unfolding read_loop
  read_loop-IsRead zero start remaining s enough from to below =
      let empty : 0 ≡ remaining = omega arith in
      rw (le→ltb_false 0 remaining (omega arith))
        (ap (bytes_at (chip.memory s) start) empty, record { memory = refl; unlocked = refl })
  read_loop-IsRead (suc fuel) start remaining s enough from to below =
      elim (Bool-cases (ltb 0 remaining)) [
        | inr done ↦
            let empty : 0 ≡ remaining = ground arith in
            rw done
              (ap (bytes_at (chip.memory s) start) empty, record { memory = refl; unlocked = refl })
        | inl more ↦
            let size : ℕ = if ltb read_buf_size remaining then read_buf_size else remaining in
            let bounds : (1 ≤ size) × (size ≤ read_buf_size) × (size ≤ remaining) = ground arith in
            let t : S = chip.after_read start s in
            let next : u32 (start + size) ≡ start + size = omega arith in
            let total : size + (remaining - size) ≡ remaining = omega arith in
            let later =
              read_loop-IsRead fuel (u32 (start + size)) (remaining - size) t (omega arith)
                (omega arith) (omega arith) below in
            rw more (
              Ends-ok (IsRead chip start remaining s) Never (read_memory adapter size start s) _ _ t
                (array_read start size s bounds.0 bounds.1 from (omega arith))
                (Ends-and_then (IsRead chip (u32 (start + size)) (remaining - size) t)
                  (IsRead chip start remaining s) Never
                  (read_loop adapter read_buf_size fuel (u32 (start + size)) (remaining - size) t)
                  (λ rest. pure (bytes_at (chip.memory s) start size ++ rest)) later
                  (λ rest u h. (
                    ap (λ b. bytes_at (chip.memory s) start size ++ b)
                          (h.0
                            ∙ ap₂ (λ m a. bytes_at m a (remaining - size))
                                (read_kept start s).memory next)
                        ∙ sym (bytes_at-append (chip.memory s) start size (remaining - size))
                        ∙ ap (bytes_at (chip.memory s) start) total,
                    Kept-trans chip s t u (read_kept start s) h.1,
                  ))))
      ]

  -- If the adapter answers with the bytes of the chip's memory wherever it is asked for 1 to
  -- `read_buf_size` of them in the array, which is all that is supposed of it, the reading of a
  -- range of the array gives the bytes of the range in order and changes nothing of the memory, and
  -- it always ends.
  pub stlink2_swim_read_range-bytes_at :
      (start length : ℕ) (s : S)
      → chip.array_start ≤ start
      → start + length ≤ chip.array_end
      → chip.array_end ≤ 16777216
      → Ends
          (IsRead chip start length s)
          Never
          (stlink2_swim_read_range adapter read_buf_size start length s)
  unfolding stlink2_swim_read_range
  stlink2_swim_read_range-bytes_at start length s from to below =
      read_loop-IsRead length start length s (omega arith) from to below
