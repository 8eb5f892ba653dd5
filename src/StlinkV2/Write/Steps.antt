-- ===== src/StlinkV2/Write/Steps.antt =====
-- The steps of stlink2_swim_write_range on a chip that an adapter reaches.
use stm8flash.Common.{
  ℕ, zero, suc, ◌-◌, ◌≤◌, ◌<◌, ◌≡◌, ◌≢◌, inl, inr, refl, ap, ◌∙◌, [], ◌∷◌, arith,
}
use stm8flash.Common.{true, false, ◌==◌, Bool-cases, All, u8, bit, set_bit, clear_bit}
use stm8flash.Device.{Device, Regs}
use stm8flash.Programmer.{
  Message, Cmd, MemType, unknown, ram, eeprom, flash, opt, write_protected, block_programmed,
  and_then, ◌>>◌,
}
use stm8flash.Programmer.Ends.{Ends, Ends-ok, Ends-mono}
use stm8flash.Programmer.Chip.{Chip, Kept, InMode, IsStm8, key_register, first_key, second_key}
use stm8flash.StlinkV2.{Adapter}
use stm8flash.StlinkV2.Swim.{swim_write_byte, swim_read_byte}
use stm8flash.StlinkV2.Link.{Reaches, swim_write_byte-write_at, swim_read_byte-register_at}
use stm8flash.StlinkV2.Read.{Never, Kept-trans}
use stm8flash.StlinkV2.Write.{unlock_mass, wait_eop, enter_block_mode, lock_mass}

-- Every register lies where SWIM reaches it with three bytes of address.
abbrev pub HasRegisters : Regs → Type 0
HasRegisters regs =
    All (λ a. a < 16777216)
      (regs.clk_ckdivr ∷ regs.flash_pukr ∷ regs.flash_dukr ∷ regs.flash_iapsr ∷ regs.flash_cr2
        ∷ regs.flash_ncr2 ∷ regs.flash_dm_csr2 ∷ [])

keys_are_bytes :
    (m : MemType) → (u8 (first_key m) ≡ first_key m) × (u8 (second_key m) ≡ second_key m)
keys_are_bytes unknown = (refl, refl)
keys_are_bytes ram = (refl, refl)
keys_are_bytes eeprom = (refl, refl)
keys_are_bytes flash = (refl, refl)
keys_are_bytes opt = (refl, refl)

key_register_below :
    (m : MemType) (regs : Regs) → HasRegisters regs → key_register m regs < 16777216
key_register_below unknown regs h = h.1.1.0
key_register_below ram regs h = h.1.1.0
key_register_below eeprom regs h = h.1.1.0
key_register_below flash regs h = h.1.0
key_register_below opt regs h = h.1.1.0

unlock_mass-keys :
    {S : Type 0} (adapter : Adapter S) (device : Device) (m : MemType)
    → block_programmed m ≡ true
    → unlock_mass adapter device m ≡ (
        swim_write_byte adapter (first_key m) (key_register m device.regs)
        >> swim_write_byte adapter (second_key m) (key_register m device.regs))
unfolding unlock_mass block_programmed
unlock_mass-keys adapter device unknown h = absurd (cc h)
unlock_mass-keys adapter device ram h = absurd (cc h)
unlock_mass-keys adapter device eeprom h = refl
unlock_mass-keys adapter device flash h = refl
unlock_mass-keys adapter device opt h = absurd (cc h)

module _ {S : Type 0} (adapter : Adapter S) (chip : Chip S) (read_buf_size : ℕ)
    (reaches : Reaches adapter chip read_buf_size) (device : Device) (m : MemType)
    (stm8 : IsStm8 chip device.regs device.flash_block_size m)
    (registers : HasRegisters device.regs) where
  -- A byte written, and a byte read, in front of the rest of a run.
  pub write_then :
      {B : Type 0} (Q : B → S → Type 0) (E : Message → S → Type 0) (b a : ℕ) (k : Unit → Cmd S B)
      (s : S)
      → a < 16777216
      → Ends Q E (k tt (chip.write_at a (u8 b ∷ []) s))
      → Ends Q E (and_then (swim_write_byte adapter b a s) k)
  write_then Q E b a k s below h =
      Ends-ok Q E (swim_write_byte adapter b a s) k tt _
        (swim_write_byte-write_at adapter chip read_buf_size reaches b a s below) h

  pub read_then :
      {B : Type 0} (Q : B → S → Type 0) (E : Message → S → Type 0) (a : ℕ) (k : ℕ → Cmd S B) (s : S)
      → a < 16777216
      → Ends Q E (k (chip.register_at a s) (chip.after_read a s))
      → Ends Q E (and_then (swim_read_byte adapter a s) k)
  read_then Q E a k s below h =
      Ends-ok Q E (swim_read_byte adapter a s) k _ _
        (swim_read_byte-register_at adapter chip read_buf_size reaches a s below) h

  -- A block that was stored does not stop the wait, whether EOP is seen or not.
  pub wait_eop-stored :
      (retries : ℕ) (s : S)
      → chip.refused s ≡ false
      → Ends (λ _ t. Kept chip s t) Never (wait_eop adapter device retries s)
  unfolding wait_eop
  wait_eop-stored zero s h = record { memory = refl; unlocked = refl }
  wait_eop-stored (suc retries) s h =
      let v : ℕ = chip.register_at device.regs.flash_iapsr s in
      let t : S = chip.after_read device.regs.flash_iapsr s in
      let (open_page, still) = stm8.status_stored s h in
      let later = wait_eop-stored retries t still in
      let kept = stm8.read_kept device.regs.flash_iapsr s in
      let not_refused : (bit v 0 == 1) ≡ false = ground arith in
      read_then (λ _ u. Kept chip s u) Never device.regs.flash_iapsr _ s registers.1.1.1.0
        (elim (Bool-cases (bit v 2 == 1)) [
          | inl done ↦ rw done kept
          | inr busy ↦
              rw (busy, not_refused)
                (Ends-mono (λ _ u. Kept chip t u) (λ _ u. Kept chip s u) Never Never
                  (wait_eop adapter device retries t) later (λ _ u k. Kept-trans chip s t u kept k)
                  (λ message u e. e))
        ])

  -- A refused block ends the program.
  pub wait_eop-refused :
      (retries : ℕ) (s : S)
      → chip.refused s ≡ true
      → Ends
          (λ _ _. ⊥)
          (λ message t. (message ≡ write_protected) × Kept chip s t)
          (wait_eop adapter device (suc retries) s)
  unfolding wait_eop
  wait_eop-refused retries s h =
      let v : ℕ = chip.register_at device.regs.flash_iapsr s in
      let (refusal, no_end) = stm8.status_refused s h in
      let first : (bit v 2 == 1) ≡ false = ground arith in
      let second : (bit v 0 == 1) ≡ true = ground arith in
      read_then (λ _ _. ⊥) (λ message t. (message ≡ write_protected) × Kept chip s t)
        device.regs.flash_iapsr _ s registers.1.1.1.0
        (rw (first, second) (refl, stm8.read_kept device.regs.flash_iapsr s))

  pub enter_block_mode-InMode :
      (mode : ℕ) (s : S)
      → mode ≤ 255
      → Ends
          (λ _ t. Kept chip s t × InMode chip device.regs mode t)
          Never
          (enter_block_mode adapter device mode s)
  unfolding enter_block_mode
  enter_block_mode-InMode mode s byte =
      let regs = device.regs in
      let csr : ℕ = u8 (set_bit 3 (chip.register_at regs.flash_dm_csr2 s)) in
      let s1 : S = chip.after_read regs.flash_dm_csr2 s in
      let s2 : S = chip.write_at regs.flash_dm_csr2 (csr ∷ []) s1 in
      let s3 : S = chip.write_at regs.flash_cr2 (u8 mode ∷ []) s2 in
      let low : u8 mode ≡ mode = omega arith in
      let (kept3, mode3) = stm8.cr2_written (u8 mode) s2 in
      let kept : Kept chip s s3 =
        Kept-trans chip s s1 s3 (stm8.read_kept regs.flash_dm_csr2 s)
          (Kept-trans chip s1 s2 s3 (stm8.stall_kept csr s1) kept3) in
      let Q : Unit → S → Type 0 = λ _ t. Kept chip s t × InMode chip regs mode t in
      read_then Q Never regs.flash_dm_csr2 _ s registers.1.1.1.1.1.1.0 (
        write_then Q Never (set_bit 3 (chip.register_at regs.flash_dm_csr2 s)) regs.flash_dm_csr2 _
          s1 registers.1.1.1.1.1.1.0
          (write_then Q Never mode regs.flash_cr2 _ s2 registers.1.1.1.1.0
            (elim (Bool-cases (regs.flash_ncr2 == 0)) [
              | inl absent ↦
                  let is_zero : regs.flash_ncr2 ≡ 0 = ground arith in
                  rw absent (
                    kept,
                    record {
                      selected = mode3 ∙ low;
                      inverted = λ present. absurd (present is_zero);
                    },
                  )
              | inr present ↦
                  let not_zero : regs.flash_ncr2 ≢ 0 = ground arith in
                  let complement : u8 (4294967295 - mode) ≡ 255 - mode = omega arith in
                  let (kept4, same_mode, inverse) =
                    stm8.ncr2_written (u8 (4294967295 - mode)) s3 _ refl not_zero in
                  rw
                    (
                      present,
                      swim_write_byte-write_at adapter chip read_buf_size reaches
                          (4294967295 - mode) regs.flash_ncr2 s3 registers.1.1.1.1.1.0,
                    )
                    (
                      Kept-trans chip s s3 _ kept kept4,
                      record {
                        selected = same_mode ∙ mode3 ∙ low;
                        inverted = λ _. inverse ∙ complement;
                      },
                    )
            ])))

  -- Both keys, in the order of the array.
  pub unlock_mass-unlocked :
      (s : S)
      → block_programmed m ≡ true
      → Ends
          (λ _ t. (chip.memory t ≡ chip.memory s) × (chip.unlocked t ≡ true))
          Never
          (unlock_mass adapter device m s)
  unlock_mass-unlocked s array =
      let key : ℕ = key_register m device.regs in
      let Q : Unit → S → Type 0 =
        λ _ t. (chip.memory t ≡ chip.memory s) × (chip.unlocked t ≡ true) in
      let s1 : S = chip.write_at key (u8 (first_key m) ∷ []) s in
      let (byte1, byte2) = keys_are_bytes m in
      let below = key_register_below m device.regs registers in
      let (kept1, accepted) =
        stm8.key_accepted s s1 (ap (λ b. chip.write_at key (b ∷ []) s) byte1) in
      let (kept2, open_array) =
        stm8.key_completed s1 (chip.write_at key (u8 (second_key m) ∷ []) s1)
          (ap (λ b. chip.write_at key (b ∷ []) s1) byte2) accepted in
      rw (unlock_mass-keys adapter device m array) (
        write_then Q Never (first_key m) key _ s below (
          rw
            (swim_write_byte-write_at adapter chip read_buf_size reaches (second_key m) key s1
              below)
            (kept2 ∙ kept1, open_array)))

  -- PUL and DUL are cleared at the end.
  pub lock_mass-locked :
      (s : S)
      → block_programmed m ≡ true
      → Ends
          (λ _ t. (chip.memory t ≡ chip.memory s) × (chip.unlocked t ≡ false))
          Never
          (lock_mass adapter device m s)
  unfolding lock_mass
  lock_mass-locked s array =
      let regs = device.regs in
      let v : ℕ = chip.register_at regs.flash_iapsr s in
      let s1 : S = chip.after_read regs.flash_iapsr s in
      let b : ℕ = clear_bit 3 (clear_bit 1 v) in
      let pul : bit (u8 b) 1 ≡ 0 = omega arith in
      let dul : bit (u8 b) 3 ≡ 0 = omega arith in
      let (kept, shut) = stm8.locked (u8 b) s1 _ refl pul dul in
      rw array (
        read_then (λ _ t. (chip.memory t ≡ chip.memory s) × (chip.unlocked t ≡ false)) Never
          regs.flash_iapsr _ s registers.1.1.1.0
          (rw
            (swim_write_byte-write_at adapter chip read_buf_size reaches b regs.flash_iapsr s1
              registers.1.1.1.0)
            (kept ∙ (stm8.read_kept regs.flash_iapsr s).memory, shut)))
