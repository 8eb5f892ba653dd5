-- ===== src/EspStlink/Read.antt =====
-- The reading of a range through an ESP-STLINK.
use stm8flash.Common.{
  ℕ, zero, suc, ◌+◌, ◌-◌, ◌≤◌, ◌≡◌, refl, sym, ap, ap₂, ◌∙◌, List, [], ◌∷◌, ◌++◌, Option, none,
  some, arith,
}
use stm8flash.Common.{if◌then◌else◌, Bool-cases, inl, inr, ltb, le→ltb_false, length, u8, u32}
use stm8flash.ByteUtils.{ex, hi, lo}
use stm8flash.Programmer.{Cmd, pure, ◌>>=◌}
use stm8flash.Programmer.Ends.{Ends, Ends-and_then}
use stm8flash.Programmer.Memory.{bytes_at, bytes_at-append, length-bytes_at, take-bytes_at}
use stm8flash.LibEspStlink.{Serial, Link, error_check, espstlink_swim_read, copy_answer}
use stm8flash.LibEspStlink.Answer.{Never, Delivers, IsAnswer, error_check-IsAnswer}
use stm8flash.EspStlink.{read_loop, espstlink_swim_read_range}

-- What the firmware answers to a READ of 1 to 255 bytes: the command, a 0, the number of the bytes
-- and the address, and the bytes of the chip's memory, which neither a command nor the reading of
-- its answer changes.
pub record Answers {S : Type 0} (serial : Serial S) (pending : S → List ℕ) (memory : S → ℕ → ℕ)
    : Type 0 where
  pub read_answered :
      (a n : ℕ) (s : S)
      → 1 ≤ n
      → n ≤ 255
      → a + n ≤ 16777216
      → pending s ≡ []
      → pending (serial.write (1 ∷ n ∷ ex a ∷ hi a ∷ lo a ∷ []) s)
        ≡ 1 ∷ 0 ∷ n ∷ ex a ∷ hi a ∷ lo a ∷ bytes_at (memory s) a n
  pub command_kept :
      (a n : ℕ) (s : S) → memory (serial.write (1 ∷ n ∷ ex a ∷ hi a ∷ lo a ∷ []) s) ≡ memory s
  pub read_kept : (n : ℕ) (s : S) → memory (serial.read n s).1 ≡ memory s

module _ {S : Type 0} (pending : S → List ℕ) (memory : S → ℕ → ℕ) where
  -- The line is quiet again, and the memory is as before.
  abbrev pub IsQuiet : Link S → Link S → Type 0
  IsQuiet s t = (pending t.line ≡ []) × (memory t.line ≡ memory s.line)

  abbrev pub IsRead : ℕ → ℕ → Link S → List ℕ → Link S → Type 0
  IsRead a n s bytes t = (bytes ≡ bytes_at (memory s.line) a n) × IsQuiet s t

module _ {S : Type 0} (serial : Serial S) (pending : S → List ℕ) (memory : S → ℕ → ℕ)
    (delivers : Delivers serial pending) (answers : Answers serial pending memory) where
  espstlink_swim_read-bytes_at :
      (a n : ℕ) (s : Link S)
      → 1 ≤ n
      → n ≤ 255
      → a + n ≤ 16777216
      → pending s.line ≡ []
      → Ends
          (λ r t. (r ≡ some (bytes_at (memory s.line) a n)) × IsQuiet pending memory s t)
          Never
          (espstlink_swim_read serial a n s)
  unfolding espstlink_swim_read copy_answer
  espstlink_swim_read-bytes_at a n s some_bytes few below quiet =
      let byte : u8 n ≡ n = omega arith in
      let asked : S = serial.write (1 ∷ n ∷ ex a ∷ hi a ∷ lo a ∷ []) s.line in
      let t : Link S = record s { line = asked } in
      let bytes : List ℕ = bytes_at (memory s.line) a n in
      let payload : List ℕ = n ∷ ex a ∷ hi a ∷ lo a ∷ bytes in
      let count = length-bytes_at (memory s.line) a n in
      let Q : Option (List ℕ) → Link S → Type 0 =
        λ r u. (r ≡ some bytes) × IsQuiet pending memory s u in
      rw byte (
        Ends-and_then
          (IsAnswer serial pending delivers memory answers.read_kept payload (memory asked) t) Q
          Never (error_check serial 1 (n + 4) 512 t) (copy_answer serial n)
          (error_check-IsAnswer serial pending delivers memory answers.read_kept 1 (n + 4) 512
            payload t (answers.read_answered a n s.line some_bytes few below quiet)
            (omega (arith, count)) (omega arith))
          (λ r u h.
            rw
              (
                h.0,
                le→ltb_false (length payload) (n + 4) (omega (arith, count)),
                take-bytes_at (memory s.line) a n n (omega arith),
              )
              (refl, (h.1, h.4 ∙ answers.command_kept a n s.line))))

  read_loop-IsRead :
      (fuel start remaining : ℕ) (s : Link S)
      → remaining ≤ fuel
      → start + remaining ≤ 16777216
      → pending s.line ≡ []
      → Ends
          (IsRead pending memory start remaining s)
          Never
          (read_loop serial fuel start remaining s)
  unfolding read_loop
  read_loop-IsRead zero start remaining s enough below quiet =
      let empty : 0 ≡ remaining = omega arith in
      rw (le→ltb_false 0 remaining (omega arith))
        (ap (bytes_at (memory s.line) start) empty, (quiet, refl))
  read_loop-IsRead (suc fuel) start remaining s enough below quiet =
      elim (Bool-cases (ltb 0 remaining)) [
        | inr done ↦
            let empty : 0 ≡ remaining = ground arith in
            rw done (ap (bytes_at (memory s.line) start) empty, (quiet, refl))
        | inl more ↦
            let size : ℕ = if ltb 255 remaining then 255 else remaining in
            let bounds : (1 ≤ size) × (size ≤ 255) × (size ≤ remaining) = ground arith in
            let next : u32 (start + size) ≡ start + size = omega arith in
            let total : size + (remaining - size) ≡ remaining = omega arith in
            let Q : List ℕ → Link S → Type 0 = IsRead pending memory start remaining s in
            let later : List ℕ → Cmd (Link S) (List ℕ) = λ bytes.
              read_loop serial fuel (u32 (start + size)) (remaining - size) >>= λ rest.
              pure (bytes ++ rest) in
            rw more (
              Ends-and_then
                (λ r t.
                  (r ≡ some (bytes_at (memory s.line) start size)) × IsQuiet pending memory s t)
                Q Never (espstlink_swim_read serial start size s)
                (λ answer. elim answer [ none ↦ pure [] | some bytes ↦ later bytes ])
                (espstlink_swim_read-bytes_at start size s bounds.0 bounds.1 (omega arith) quiet)
                (λ r t (got, (still, same)). rw got (
                  Ends-and_then (IsRead pending memory (u32 (start + size)) (remaining - size) t) Q
                    Never (read_loop serial fuel (u32 (start + size)) (remaining - size) t)
                    (λ rest. pure (bytes_at (memory s.line) start size ++ rest))
                    (read_loop-IsRead fuel (u32 (start + size)) (remaining - size) t (omega arith)
                      (omega arith) still)
                    (λ rest u (bytes, (over, kept)). (
                      ap (λ b. bytes_at (memory s.line) start size ++ b)
                            (bytes ∙ ap₂ (λ m a. bytes_at m a (remaining - size)) same next)
                          ∙ sym (bytes_at-append (memory s.line) start size (remaining - size))
                          ∙ ap (bytes_at (memory s.line) start) total,
                      (over, kept ∙ same),
                    )))))
      ]

  -- If the firmware answers each READ of 1 to 255 bytes with the bytes of the chip's memory, in
  -- pieces of any lengths, the reading of any range below 0x1000000 gives its bytes in order, ends,
  -- and leaves nothing on the line.
  pub espstlink_swim_read_range-IsRead :
      (start length : ℕ) (s : Link S)
      → start + length ≤ 16777216
      → pending s.line ≡ []
      → Ends
          (IsRead pending memory start length s)
          Never
          (espstlink_swim_read_range serial start length s)
  unfolding espstlink_swim_read_range
  espstlink_swim_read_range-IsRead start length s below quiet =
      read_loop-IsRead length start length s (omega arith) below quiet
