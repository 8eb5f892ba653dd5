-- ===== src/Ihex/Prefix.antt =====
-- ihex_write reads nothing of its buffer behind the end of the range.
use stm8flash.Common.{
  Bool, ℕ, zero, suc, ◌+◌, ◌-◌, ◌≤◌, ◌<◌, ◌≡◌, refl, ap, ◌∙◌, List, [], ◌∷◌, ◌++◌, arith,
}
use stm8flash.Common.{length, drop, length-drop, ltb, Bool-cases, inl, inr, u32, sub32, ◌>>◌}
use stm8flash.Stdio.Output.{Io, ok, fault, stuck, io_error, ◌>>=◌}
use stm8flash.Ihex.{
  sum_bytes, checksum, chunk_length, write_bytes, write_ela, write_data, write_loop, ihex_write,
}
use stm8flash.Ihex.Writer.{chunk_length_bounds}

drop-append : (n : ℕ) (xs ys : List ℕ) → n ≤ length xs → drop n (xs ++ ys) ≡ drop n xs ++ ys
drop-append zero xs ys h = refl
drop-append (suc n) [] ys h = absurd (omega arith)
drop-append (suc n) (x ∷ xs) ys h = drop-append n xs ys (omega arith)

sum_bytes-append :
    (n : ℕ) (xs ys : List ℕ) → n ≤ length xs → sum_bytes n (xs ++ ys) ≡ sum_bytes n xs
unfolding sum_bytes
sum_bytes-append zero xs ys h = refl
sum_bytes-append (suc n) [] ys h = absurd (omega arith)
sum_bytes-append (suc n) (x ∷ xs) ys h = ap (λ s. x + s) (sum_bytes-append n xs ys (omega arith))

bind_same :
    (m : Io) (f g : List ℕ → Io) → ((file : List ℕ) → f file ≡ g file) → (m >>= f) ≡ (m >>= g)
bind_same (ok file) f g h = h file
bind_same io_error f g h = refl
bind_same fault f g h = refl
bind_same stuck f g h = refl

module _ (accepts : List ℕ → List ℕ → Bool) where
  write_bytes-append :
      (n : ℕ) (xs ys file : List ℕ)
      → n ≤ length xs
      → write_bytes accepts n (xs ++ ys) file ≡ write_bytes accepts n xs file
  unfolding write_bytes
  write_bytes-append zero xs ys file h = refl
  write_bytes-append (suc n) [] ys file h = absurd (omega arith)
  write_bytes-append (suc n) (x ∷ xs) ys file h =
      bind_same _ (write_bytes accepts n (xs ++ ys)) (write_bytes accepts n xs)
        (λ file'. write_bytes-append n xs ys file' (omega arith))

  write_data-append :
      (n addr : ℕ) (xs ys file : List ℕ)
      → n ≤ length xs
      → write_data accepts n addr (xs ++ ys) file ≡ write_data accepts n addr xs file
  unfolding write_data checksum
  write_data-append n addr xs ys file h =
      rw (write_bytes-append n xs ys _ h, sum_bytes-append n xs ys h) refl

  write_loop-append :
      (fuel : ℕ) (buf rest : List ℕ) (start stop cur_ela addr : ℕ) (file : List ℕ)
      → start ≤ addr
      → start + length buf ≡ stop
      → stop < 4294967296
      → write_loop accepts fuel (buf ++ rest) start stop cur_ela addr file
        ≡ write_loop accepts fuel buf start stop cur_ela addr file
  unfolding write_loop
  write_loop-append zero buf rest start stop cur_ela addr file from to small = refl
  write_loop-append (suc fuel) buf rest start stop cur_ela addr file from to small =
      elim (Bool-cases (ltb addr stop)) [
        | inr done ↦ rw done refl
        | inl more ↦
            let before : addr < stop = ground arith in
            let (some_bytes, few, within, one_block) = chunk_length_bounds stop addr before small in
            let len : ℕ = chunk_length stop addr in
            let offset : sub32 addr start ≡ addr - start = omega arith in
            let inside : sub32 addr start ≤ length buf = omega arith in
            let holds : len ≤ length (drop (sub32 addr start) buf) =
              omega (arith, length-drop (sub32 addr start) buf) in
            let next : start ≤ u32 (addr + len) = omega arith in
            rw (more, drop-append (sub32 addr start) buf rest inside)
              (bind_same (write_ela accepts cur_ela (addr >> 16) file) _ _ (λ with_ela.
                ap
                  (λ d. d >>= λ with_data.
                    write_loop accepts fuel (buf ++ rest) start stop (addr >> 16) (u32 (addr + len))
                      with_data)
                  (write_data-append len addr (drop (sub32 addr start) buf) rest with_ela holds)
                ∙ bind_same (write_data accepts len addr (drop (sub32 addr start) buf) with_ela) _ _
                    (λ with_data.
                      write_loop-append fuel buf rest start stop (addr >> 16) (u32 (addr + len))
                        with_data next to small)))
      ]

  -- The bytes of the buffer behind the range make no difference to the file.
  pub ihex_write-append :
      (buf rest : List ℕ) (start stop : ℕ)
      → start + length buf ≡ stop
      → stop < 4294967296
      → ihex_write accepts (buf ++ rest) start stop ≡ ihex_write accepts buf start stop
  unfolding ihex_write
  ihex_write-append buf rest start stop to small =
      write_loop-append (stop - start) buf rest start stop _ start [] (omega arith) to small
