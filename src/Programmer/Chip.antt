-- ===== src/Programmer/Chip.antt =====
-- The flash and EEPROM of an STM8 as its reference manual describes them to a programmer: which
-- writes unlock and lock an array, and when a block is stored. The chip itself is a parameter.
use stm8flash.Common.{
  ℕ, ◌-◌, ◌%◌, ◌≡◌, ◌≢◌, ◌⊎◌, List, [], ◌∷◌, Bool, true, false, length, replicate, bit,
}
use stm8flash.Device.{Regs}
use stm8flash.Programmer.{MemType, flash}
use stm8flash.Programmer.Memory.{bytes_at, store}

-- A chip on the SWIM interface: bytes written from an address on, a register read, the bytes of the
-- memory, and what is seen of the flash controller: whether the first key was accepted, whether the
-- array is unlocked, the registers CR2 and NCR2, whether the last block was refused, and which
-- addresses are write-protected. The array that is programmed lies from `array_start` up to
-- `array_end`.
pub record Chip (S : Type 0) : Type 0 where
  pub write_at : ℕ → List ℕ → S → S
  pub register_at : ℕ → S → ℕ
  pub after_read : ℕ → S → S
  pub memory : S → ℕ → ℕ
  pub keyed : S → Bool
  pub unlocked : S → Bool
  pub cr2 : S → ℕ
  pub ncr2 : S → ℕ
  pub refused : S → Bool
  pub is_protected : ℕ → Bool
  pub array_start : ℕ
  pub array_end : ℕ

-- The register and the keys that unlock an array.
abbrev pub key_register : MemType → Regs → ℕ
key_register flash regs = regs.flash_pukr
key_register _ regs = regs.flash_dukr

abbrev pub first_key : MemType → ℕ
first_key flash = 0x56
first_key _ = 0xae

abbrev pub second_key : MemType → ℕ
second_key flash = 0xae
second_key _ = 0x56

module _ {S : Type 0} (chip : Chip S) where
  -- Nothing of the memory and the lock has changed.
  pub record Kept (s t : S) : Type 0 where
    pub memory : chip.memory t ≡ chip.memory s
    pub unlocked : chip.unlocked t ≡ chip.unlocked s

  -- CR2 and its complement, where the chip has that register, select a mode of programming.
  pub record InMode (regs : Regs) (mode : ℕ) (s : S) : Type 0 where
    pub selected : chip.cr2 s ≡ mode
    pub inverted : regs.flash_ncr2 ≢ 0 → chip.ncr2 s ≡ 255 - mode

  -- A block can be programmed: the standard mode erases it first, the fast mode must find it erased.
  abbrev pub CanProgram : Regs → ℕ → ℕ → S → Type 0
  CanProgram regs block_size a s =
      (chip.unlocked s ≡ true)
      × (InMode regs 0x01 s
          ⊎ (InMode regs 0x10 s × (bytes_at (chip.memory s) a block_size ≡ replicate block_size 0)))

-- The documented behaviour that the programmers rely on, for the array that a type of memory names.
pub record IsStm8 {S : Type 0} (chip : Chip S) (regs : Regs) (block_size : ℕ) (m : MemType)
    : Type 0 where
  pub clock_kept : (b : ℕ) (s : S) → Kept chip s (chip.write_at regs.clk_ckdivr (b ∷ []) s)
  pub stall_kept : (b : ℕ) (s : S) → Kept chip s (chip.write_at regs.flash_dm_csr2 (b ∷ []) s)
  pub read_kept : (a : ℕ) (s : S) → Kept chip s (chip.after_read a s)
  pub key_accepted :
      (s : S) (t : S)
      → t ≡ chip.write_at (key_register m regs) (first_key m ∷ []) s
      → (chip.memory t ≡ chip.memory s) × (chip.keyed t ≡ true)
  pub key_completed :
      (s : S) (t : S)
      → t ≡ chip.write_at (key_register m regs) (second_key m ∷ []) s
      → chip.keyed s ≡ true
      → (chip.memory t ≡ chip.memory s) × (chip.unlocked t ≡ true)
  pub cr2_written :
      (b : ℕ) (s : S)
      → Kept chip s (chip.write_at regs.flash_cr2 (b ∷ []) s)
        × (chip.cr2 (chip.write_at regs.flash_cr2 (b ∷ []) s) ≡ b)
  pub ncr2_written :
      (b : ℕ) (s : S) (t : S)
      → t ≡ chip.write_at regs.flash_ncr2 (b ∷ []) s
      → regs.flash_ncr2 ≢ 0
      → Kept chip s t × (chip.cr2 t ≡ chip.cr2 s) × (chip.ncr2 t ≡ b)
  pub block_stored :
      (a : ℕ) (bytes : List ℕ) (s : S) (t : S)
      → t ≡ chip.write_at a bytes s
      → length bytes ≡ block_size
      → a % block_size ≡ 0
      → CanProgram chip regs block_size a s
      → chip.is_protected a ≡ false
      → (chip.memory t ≡ store (chip.memory s) a bytes)
        × (chip.unlocked t ≡ true)
        × (chip.refused t ≡ false)
  pub block_refused :
      (a : ℕ) (bytes : List ℕ) (s : S) (t : S)
      → t ≡ chip.write_at a bytes s
      → length bytes ≡ block_size
      → a % block_size ≡ 0
      → CanProgram chip regs block_size a s
      → chip.is_protected a ≡ true
      → (chip.memory t ≡ chip.memory s) × (chip.refused t ≡ true)
  -- WR_PG_DIS, bit 0, tells of a refused block, and EOP, bit 2, of a stored one.
  pub status_refused :
      (s : S)
      → chip.refused s ≡ true
      → (bit (chip.register_at regs.flash_iapsr s) 0 ≡ 1)
        × (bit (chip.register_at regs.flash_iapsr s) 2 ≡ 0)
  pub status_stored :
      (s : S)
      → chip.refused s ≡ false
      → (bit (chip.register_at regs.flash_iapsr s) 0 ≡ 0)
        × (chip.refused (chip.after_read regs.flash_iapsr s) ≡ false)
  -- PUL and DUL, bits 1 and 3, lock the arrays when they are cleared.
  pub locked :
      (b : ℕ) (s : S) (t : S)
      → t ≡ chip.write_at regs.flash_iapsr (b ∷ []) s
      → bit b 1 ≡ 0
      → bit b 3 ≡ 0
      → (chip.memory t ≡ chip.memory s) × (chip.unlocked t ≡ false)
