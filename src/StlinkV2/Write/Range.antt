-- ===== src/StlinkV2/Write/Range.antt =====
-- The writing of a whole range.
use stm8flash.Common.{
  ℕ, suc, ◌+◌, ◌-◌, ◌*◌, ◌%◌, ◌≤◌, ◌<◌, ◌≡◌, refl, sym, subst, ap, ap₂, ◌∙◌, List, [], ◌∷◌, ◌++◌,
  arith,
}
use stm8flash.Common.{true, false, if◌then◌else◌, length as size_of, length-take, u8, take, drop}
use native.Mathlib.Nat.{mul-le-mul_right}
use stm8flash.Device.{Device}
use stm8flash.Programmer.{
  Message, MemType, unknown, ram, eeprom, flash, opt, write_protected, block_programmed, is_opt,
  pure, or_fault, and_then, ◌>>=◌, ◌>>◌,
}
use stm8flash.Programmer.Ends.{Ends, Ends-and_then, Ends-mono}
use stm8flash.Programmer.Block.{rounded_size, extend}
use stm8flash.Programmer.Padding.{
  rounded_size-blocks, padding, take-take_append, take-padding, length-padding, extend-padding,
}
use stm8flash.Programmer.Memory.{bytes_at, store, length-bytes_at, store-padded, drop-bytes_at}
use stm8flash.Programmer.Chip.{Chip, IsStm8}
use stm8flash.StlinkV2.{Adapter}
use stm8flash.StlinkV2.Swim.{stlink2_swim_read_range}
use stm8flash.StlinkV2.Link.{Reaches}
use stm8flash.StlinkV2.Read.{Never, IsRead, stlink2_swim_read_range-bytes_at}
use stm8flash.StlinkV2.Write.{
  write_whole_blocks, write_option_bytes, write_blocks, lock_mass, unlock_mass,
  stlink2_swim_write_range,
}
use stm8flash.StlinkV2.Write.Steps.{
  HasRegisters, write_then, unlock_mass-unlocked, lock_mass-locked,
}
use stm8flash.StlinkV2.Write.Block.{IsStored}
use stm8flash.StlinkV2.Write.Loop.{IsStopped, write_blocks-IsStored}

is_opt-false : (m : MemType) → block_programmed m ≡ true → is_opt m ≡ false
unfolding is_opt block_programmed
is_opt-false unknown h = refl
is_opt-false ram h = refl
is_opt-false eeprom h = refl
is_opt-false flash h = refl
is_opt-false opt h = absurd (cc h)

module _ {S : Type 0} (adapter : Adapter S) (chip : Chip S) (read_buf_size : ℕ)
    (reaches : Reaches adapter chip read_buf_size) (some_room : 1 ≤ read_buf_size) (device : Device)
    (m : MemType) (stm8 : IsStm8 chip device.regs device.flash_block_size m)
    (registers : HasRegisters device.regs) (array : block_programmed m ≡ true)
    (some_block : 1 ≤ device.flash_block_size)
    (small_blocks : device.flash_block_size < 65536) where
  -- What is in the memory when the range is written, and when a protected block stops it.
  abbrev pub IsWritten : ℕ → ℕ → List ℕ → S → S → Type 0
  IsWritten start length buffer s t =
      chip.memory t ≡ store (chip.memory s) start (take length buffer)

  abbrev pub IsProtected : ℕ → ℕ → List ℕ → S → Message → S → Type 0
  IsProtected start length buffer s message t =
      (message ≡ write_protected)
      × (n : ℕ) × (n * device.flash_block_size < length)
      × (chip.is_protected (start + n * device.flash_block_size) ≡ true)
      × IsWritten start (n * device.flash_block_size) buffer s t

  write_whole_blocks-IsWritten :
      (buffer : List ℕ) (start length : ℕ) (s : S)
      → 1 ≤ length
      → length ≤ 16777216
      → rounded_size length device.flash_block_size ≤ size_of buffer
      → start % device.flash_block_size ≡ 0
      → chip.array_start ≤ start
      → start + rounded_size length device.flash_block_size ≤ chip.array_end
      → chip.array_end ≤ 16777216
      → chip.unlocked s ≡ true
      → Ends
          (λ _ t. IsWritten start length buffer s t × (chip.unlocked t ≡ true))
          (IsProtected start length buffer s)
          (write_whole_blocks adapter device read_buf_size buffer start length m s)
  unfolding write_whole_blocks
  write_whole_blocks-IsWritten buffer start length s some_byte few room aligned from to below
        open_array =
      let size : ℕ = device.flash_block_size in
      let total : ℕ = rounded_size length size in
      let (k, blocks, covers, close, enough) =
        rounded_size-blocks length size some_byte few some_block small_blocks in
      let Q : Unit {0} → S → Type 0 =
        λ _ t. IsWritten start length buffer s t × (chip.unlocked t ≡ true) in
      Ends-and_then (IsRead chip start total s) Q (IsProtected start length buffer s)
        (stlink2_swim_read_range adapter read_buf_size start total s)
        (λ current. or_fault (extend buffer current length) >>= λ padded.
          write_blocks adapter device length current padded start length 0 m)
        (Ends-mono (IsRead chip start total s) (IsRead chip start total s) Never
          (IsProtected start length buffer s)
          (stlink2_swim_read_range adapter read_buf_size start total s)
          (stlink2_swim_read_range-bytes_at adapter chip read_buf_size reaches.array_read
            stm8.read_kept some_room start total s from to below)
          (λ _ t h. h) (λ message t h. absurd h))
        (λ current t h.
          let cur_size : size_of current ≡ total =
            ap size_of h.0 ∙ length-bytes_at (chip.memory s) start total in
          let fits : size_of current ≤ size_of buffer = omega (arith, cur_size) in
          let inside : length ≤ size_of current = omega (arith, cur_size, blocks) in
          let padded : List ℕ = padding buffer current length in
          let zero_up : start + 0 ≡ start = omega arith in
          let now : current ≡ bytes_at (chip.memory t) (start + 0) (k * size) =
            h.0
            ∙ ap₂ (bytes_at (chip.memory s)) (sym zero_up) blocks
            ∙ ap (λ w. bytes_at w (start + 0) (k * size)) (sym h.1.memory) in
          let place : start + length ≡ start + size_of (take length buffer) =
            omega (arith, length-take length buffer) in
          let all : k * size ≡ size_of current = omega (arith, cur_size, blocks) in
          let whole : take (k * size) padded
              ≡ take length buffer
                ++ bytes_at (chip.memory s) (start + size_of (take length buffer))
                    (total - length) =
            ap (λ n. take n padded) all
            ∙ take-padding buffer current length inside fits
            ∙ ap (λ d. take length buffer ++ d)
                (ap (drop length) h.0
                  ∙ drop-bytes_at (chip.memory s) start length total
                  ∙ ap (λ a. bytes_at (chip.memory s) a (total - length)) place) in
          rw (extend-padding buffer current length fits) (
            Ends-mono (IsStored chip (start + 0) (take (k * size) padded) t) Q
              (IsStopped chip size k (start + 0) padded t) (IsProtected start length buffer s)
              (write_blocks adapter device length current padded start length 0 m t)
              (write_blocks-IsStored adapter chip read_buf_size reaches device m stm8 registers
                array small_blocks some_block k length current padded start length 0 t enough
                (omega arith) (omega arith) now
                (omega (arith, length-padding buffer current length inside fits, cur_size, blocks))
                (ap (λ n. n % size) zero_up ∙ aligned) (omega arith) (h.1.unlocked ∙ open_array))
              (λ _ u g. (
                g.0
                    ∙ ap₂ (λ w a. store w a (take (k * size) padded)) h.1.memory zero_up
                    ∙ ap (store (chip.memory s) start) whole
                    ∙ store-padded (chip.memory s) start (take length buffer) (total - length),
                g.1,
              ))
              (λ message u (e, n, few_blocks, protected, mem).
                let up : suc n * size ≤ k * size = mul-le-mul_right size few_blocks in
                let one_more : suc n * size ≡ size + n * size = omega arith in
                let place : start + n * size ≡ start + 0 + n * size = omega arith in
                (
                  e,
                  n,
                  omega arith,
                  ap chip.is_protected place ∙ protected,
                  mem
                      ∙ ap₂ (λ w a. store w a (take (n * size) padded)) h.1.memory zero_up
                      ∙ ap (store (chip.memory s) start) (
                          take-take_append buffer
                            (drop length current ++ drop (size_of current) buffer) length (n * size)
                            (omega arith) (omega arith)),
                ))))

  -- The range is written, and the array is locked.
  locked_behind :
      (start length : ℕ) (buffer : List ℕ) (s u : S)
      → IsWritten start length buffer s u
      → Ends
          (λ n t. (n ≡ length) × IsWritten start length buffer s t × (chip.unlocked t ≡ false))
          (IsProtected start length buffer s)
          ((lock_mass adapter device m >> pure length) u)
  locked_behind start length buffer s u written =
      Ends-and_then (λ _ t. (chip.memory t ≡ chip.memory u) × (chip.unlocked t ≡ false))
        (λ n t. (n ≡ length) × IsWritten start length buffer s t × (chip.unlocked t ≡ false))
        (IsProtected start length buffer s) (lock_mass adapter device m u) (λ _. pure length)
        (Ends-mono (λ _ t. (chip.memory t ≡ chip.memory u) × (chip.unlocked t ≡ false))
          (λ _ t. (chip.memory t ≡ chip.memory u) × (chip.unlocked t ≡ false)) Never
          (IsProtected start length buffer s) (lock_mass adapter device m u)
          (lock_mass-locked adapter chip read_buf_size reaches device m stm8 registers u array)
          (λ _ t h. h) (λ message t h. absurd h))
        (λ _ t h. (refl, h.0 ∙ written, h.1))

  -- On a chip that behaves as documented, behind an adapter that reaches it, a range of the flash
  -- or EEPROM that starts at a block, whose whole blocks lie in the array and whose buffer has room
  -- for them, is written: the memory is what it was with exactly the bytes of the range stored, the
  -- array is locked again and the length is returned. If a block of the range is write-protected,
  -- either it already holds its bytes or the program ends with the message for it: then the blocks
  -- in front of it are stored, and nothing else has changed. No other message, no access outside a
  -- buffer and no endless loop is possible.
  pub stlink2_swim_write_range-IsWritten :
      (buffer : List ℕ) (start length : ℕ) (s : S)
      → 1 ≤ length
      → length ≤ 16777216
      → rounded_size length device.flash_block_size ≤ size_of buffer
      → start % device.flash_block_size ≡ 0
      → chip.array_start ≤ start
      → start + rounded_size length device.flash_block_size ≤ chip.array_end
      → chip.array_end ≤ 16777216
      → Ends
          (λ n t. (n ≡ length) × IsWritten start length buffer s t × (chip.unlocked t ≡ false))
          (IsProtected start length buffer s)
          (stlink2_swim_write_range adapter device read_buf_size buffer start length m s)
  unfolding stlink2_swim_write_range
  stlink2_swim_write_range-IsWritten buffer start length s some_byte few room aligned from to
        below =
      let Q : ℕ → S → Type 0 =
        λ n t. (n ≡ length) × IsWritten start length buffer s t × (chip.unlocked t ≡ false) in
      let E : Message → S → Type 0 = IsProtected start length buffer s in
      let s1 : S = chip.write_at device.regs.clk_ckdivr (u8 0 ∷ []) s in
      let clock = stm8.clock_kept (u8 0) s in
      write_then adapter chip read_buf_size reaches device m stm8 registers Q E 0
        device.regs.clk_ckdivr _ s registers.0
        (Ends-and_then (λ _ t. (chip.memory t ≡ chip.memory s1) × (chip.unlocked t ≡ true)) Q E
          (unlock_mass adapter device m s1) _
          (Ends-mono (λ _ t. (chip.memory t ≡ chip.memory s1) × (chip.unlocked t ≡ true))
            (λ _ t. (chip.memory t ≡ chip.memory s1) × (chip.unlocked t ≡ true)) Never E
            (unlock_mass adapter device m s1)
            (unlock_mass-unlocked adapter chip read_buf_size reaches device m stm8 registers s1
              array)
            (λ _ t h. h) (λ message t h. absurd h))
          (λ _ t h.
            let same : chip.memory t ≡ chip.memory s = h.0 ∙ clock.memory in
            subst
              (λ b. Ends Q E (
                and_then
                  ((if b
                      then write_option_bytes adapter device buffer start length
                      else write_whole_blocks adapter device read_buf_size buffer start length m)
                    t)
                  (λ _. lock_mass adapter device m >> pure length)))
              (sym (is_opt-false m array))
              (Ends-and_then (λ _ u. IsWritten start length buffer s u × (chip.unlocked u ≡ true)) Q
                E (write_whole_blocks adapter device read_buf_size buffer start length m t)
                (λ _. lock_mass adapter device m >> pure length)
                (Ends-mono (λ _ u. IsWritten start length buffer t u × (chip.unlocked u ≡ true))
                  (λ _ u. IsWritten start length buffer s u × (chip.unlocked u ≡ true))
                  (IsProtected start length buffer t) E
                  (write_whole_blocks adapter device read_buf_size buffer start length m t)
                  (write_whole_blocks-IsWritten buffer start length t some_byte few room aligned
                    from to below h.1)
                  (λ _ u g. (g.0 ∙ ap (λ w. store w start (take length buffer)) same, g.1))
                  (λ message u (e, n, inside, protected, mem). (
                    e,
                    n,
                    inside,
                    protected,
                    mem ∙ ap (λ w. store w start (take (n * device.flash_block_size) buffer)) same,
                  )))
                (λ _ u g. locked_behind start length buffer s u g.0))))
