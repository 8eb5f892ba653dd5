-- ===== src/StlinkV2/Write/Block.antt =====
-- The programming of one block, and the loop over the blocks.
use stm8flash.Common.{
  ℕ, ◌+◌, ◌%◌, ◌≤◌, ◌<◌, ◌≡◌, inl, inr, refl, sym, subst, ap, ◌∙◌, List, [], arith,
}
use stm8flash.Common.{true, Bool-cases, length, replicate}
use stm8flash.Device.{Device}
use stm8flash.Programmer.{Message, MemType, write_protected, block_programmed}
use stm8flash.Programmer.Ends.{Ends, Ends-and_then, Ends-ok, Ends-mono}
use stm8flash.Programmer.Block.{prgmode_of, prgmode_of-cases}
use stm8flash.Programmer.Memory.{bytes_at, store, length-bytes_at}
use stm8flash.Programmer.Chip.{Chip, Kept, InMode, IsStm8, CanProgram}
use stm8flash.StlinkV2.{Adapter}
use stm8flash.StlinkV2.Swim.{writemem}
use stm8flash.StlinkV2.Link.{Reaches}
use stm8flash.StlinkV2.Read.{Never}
use stm8flash.StlinkV2.Write.{enter_block_mode, program_block}
use stm8flash.StlinkV2.Write.Steps.{
  HasRegisters, enter_block_mode-InMode, wait_eop-stored, wait_eop-refused,
}

prgmode_of_bound : (current : List ℕ) → prgmode_of current ≤ 255
prgmode_of_bound current = elim (prgmode_of-cases current) [
  | inl h ↦ omega arith
  | inr h ↦ let e : prgmode_of current ≡ 16 = h.0 in omega arith
]

module _ {S : Type 0} (chip : Chip S) where
  -- A block is stored, or it is protected and the program ends without a change.
  abbrev pub IsStored : ℕ → List ℕ → S → Unit {0} → S → Type 0
  IsStored a block s _ t =
      (chip.memory t ≡ store (chip.memory s) a block) × (chip.unlocked t ≡ true)

  abbrev pub IsRefused : ℕ → S → Message → S → Type 0
  IsRefused a s message t =
      (message ≡ write_protected) × (chip.is_protected a ≡ true) × (chip.memory t ≡ chip.memory s)

module _ {S : Type 0} (adapter : Adapter S) (chip : Chip S) (read_buf_size : ℕ)
    (reaches : Reaches adapter chip read_buf_size) (device : Device) (m : MemType)
    (stm8 : IsStm8 chip device.regs device.flash_block_size m)
    (registers : HasRegisters device.regs) (array : block_programmed m ≡ true)
    (small_blocks : device.flash_block_size < 65536) where
  -- The mode that enter_block_mode has selected suits the block.
  can_program :
      (a : ℕ) (s t : S)
      → chip.unlocked s ≡ true
      → Kept chip s t
      → InMode chip device.regs (prgmode_of (bytes_at (chip.memory s) a device.flash_block_size)) t
      → CanProgram chip device.regs device.flash_block_size a t
  can_program a s t open_array kept mode =
      let old : List ℕ = bytes_at (chip.memory s) a device.flash_block_size in
      (
        kept.unlocked ∙ open_array,
        elim (prgmode_of-cases old) [
          | inl standard ↦ inl (subst (λ n. InMode chip device.regs n t) standard mode)
          | inr (fast, zeros) ↦ inr (
            subst (λ n. InMode chip device.regs n t) fast mode,
            ap (λ w. bytes_at w a device.flash_block_size) kept.memory
                ∙ zeros
                ∙ ap (λ n. replicate n 0)
                    (length-bytes_at (chip.memory s) a device.flash_block_size),
          )
        ],
      )

  pub program_block-IsStored :
      (block : List ℕ) (a : ℕ) (s : S)
      → length block ≡ device.flash_block_size
      → a % device.flash_block_size ≡ 0
      → a < 4294967296
      → chip.unlocked s ≡ true
      → Ends (IsStored chip a block s) (IsRefused chip a s) (
          program_block adapter device
            (bytes_at (chip.memory s) a device.flash_block_size)
            block
            a
            m
            s)
  unfolding program_block
  program_block-IsStored block a s len aligned below open_array =
      let size : ℕ = device.flash_block_size in
      let old : List ℕ = bytes_at (chip.memory s) a size in
      let mode : ℕ = prgmode_of old in
      let fits : 0 + length block < 65536 = omega arith in
      let all : 0 + length block ≡ size = omega arith in
      rw array (
        Ends-and_then (λ _ t. Kept chip s t × InMode chip device.regs mode t)
          (IsStored chip a block s) (IsRefused chip a s) (enter_block_mode adapter device mode s) _
          (Ends-mono (λ _ t. Kept chip s t × InMode chip device.regs mode t)
            (λ _ t. Kept chip s t × InMode chip device.regs mode t) Never (IsRefused chip a s)
            (enter_block_mode adapter device mode s)
            (enter_block_mode-InMode adapter chip read_buf_size reaches device m stm8 registers mode
              s (prgmode_of_bound old))
            (λ _ t h. h) (λ message t h. absurd h))
          (λ _ t (kept, selected).
            let u : S = chip.write_at a block t in
            let ready = can_program a s t open_array kept selected in
            Ends-ok (IsStored chip a block s) (IsRefused chip a s)
              (adapter.swim_cmd_with_data (writemem size a) block t) _ tt u
              (ap (λ n. adapter.swim_cmd_with_data (writemem n a) block t) (sym all)
                ∙ reaches.written a [] block t below fits)
              (elim (Bool-cases (chip.is_protected a)) [
                | inl protected ↦
                    let (same, refusal) =
                      stm8.block_refused a block t u refl len aligned ready protected in
                    Ends-mono (λ _ _. ⊥) (IsStored chip a block s)
                      (λ message v. (message ≡ write_protected) × Kept chip u v)
                      (IsRefused chip a s) _
                      (wait_eop-refused adapter chip read_buf_size reaches device m stm8 registers 4
                        u refusal)
                      (λ _ v h. absurd h)
                      (λ message v h. (h.0, protected, h.1.memory ∙ same ∙ kept.memory))
                | inr free ↦
                    let (stored, open_still, no_refusal) =
                      stm8.block_stored a block t u refl len aligned ready free in
                    Ends-mono (λ _ v. Kept chip u v) (IsStored chip a block s) Never
                      (IsRefused chip a s) _
                      (wait_eop-stored adapter chip read_buf_size reaches device m stm8 registers 5
                        u no_refusal)
                      (λ _ v h. (
                        h.memory ∙ stored ∙ ap (λ w. store w a block) kept.memory,
                        h.unlocked ∙ open_still,
                      ))
                      (λ message v h. absurd h)
              ])))
