-- ===== src/StlinkV2/Write.antt =====
-- stlinkv2.c: stlink2_swim_write_range.
pub mod Steps
pub mod Block
pub mod Loop
pub mod Range
mod Tests
use stm8flash.Common.{
  ℕ, zero, suc, ◌+◌, ◌-◌, ◌*◌, ◌/◌, List, [], ◌∷◌, ◌++◌, Option, none, some, Bool, true, false,
  ◌||◌, ltb, ◌==◌, if◌then◌else◌,
}
use stm8flash.Common.{u32, sub32, bit, set_bit, clear_bit, take, drop}
use stm8flash.Device.{Device}
use stm8flash.Programmer.{
  MemType, unknown, ram, eeprom, flash, opt, Cmd, pure, exit, fault, write_protected, try, ◌>>=◌,
  ◌>>◌,
}
use stm8flash.Programmer.{endless, block_programmed, is_opt, or_fault}
use stm8flash.Programmer.Block.{rounded_size, same_bytes, extend, prgmode_of}
use stm8flash.StlinkV2.{Adapter}
use stm8flash.StlinkV2.Swim.{writemem, swim_write_byte, swim_read_byte, stlink2_swim_read_range}

module _ {S : Type 0} (adapter : Adapter S) (device : Device) where
  -- "Unlock MASS".
  unfoldable pub unlock_mass : MemType → Cmd S (Unit {0})
  unfolding swim_write_byte
  unlock_mass flash = do
    swim_write_byte adapter 0x56 device.regs.flash_pukr
    swim_write_byte adapter 0xae device.regs.flash_pukr
  unlock_mass eeprom = do
    swim_write_byte adapter 0xae device.regs.flash_dukr
    swim_write_byte adapter 0x56 device.regs.flash_dukr
  unlock_mass opt = do
    swim_write_byte adapter 0xae device.regs.flash_dukr
    swim_write_byte adapter 0x56 device.regs.flash_dukr
  unlock_mass _ = pure tt

  -- A register that some devices lack.
  abbrev pub write_ncr2 : ℕ → Cmd S (Unit {0})
  write_ncr2 byte =
      if device.regs.flash_ncr2 == 0
      then pure tt
      else swim_write_byte adapter byte device.regs.flash_ncr2

  -- EOP of FLASH_IAPSR.
  abbrev end_of_programming : Cmd S Bool
  end_of_programming = do
    iapsr ← swim_read_byte adapter device.regs.flash_iapsr
    pure (bit iapsr 2 == 1)

  -- The loop over the option bytes, `length` of them left.
  unfoldable pub write_options : List ℕ → ℕ → ℕ → Cmd S (Unit {0})
  unfolding swim_write_byte swim_read_byte try
  write_options buffer start zero = pure tt
  write_options [] start (suc length) = λ _. fault
  write_options (b ∷ buffer) start (suc length) = do
    swim_write_byte adapter b start
    try 5 end_of_programming
    write_options buffer (u32 (start + 1)) length

  -- The wait for the end of a block's programming: five reads, and on without EOP.
  unfoldable pub wait_eop : ℕ → Cmd S (Unit {0})
  unfolding swim_read_byte
  wait_eop zero = pure tt
  wait_eop (suc retries) = do
    iapsr ← swim_read_byte adapter device.regs.flash_iapsr
    if bit iapsr 2 == 1
        then pure tt
        else if bit iapsr 0 == 1
        then exit write_protected
        else wait_eop retries

  unfoldable pub enter_block_mode : ℕ → Cmd S (Unit {0})
  unfolding swim_read_byte swim_write_byte
  enter_block_mode prgmode = do
    csr ← swim_read_byte adapter device.regs.flash_dm_csr2
    swim_write_byte adapter (set_bit 3 csr) device.regs.flash_dm_csr2
    swim_write_byte adapter prgmode device.regs.flash_cr2
    write_ncr2 (4294967295 - prgmode)

  -- One block of the buffer, which differs from the block that was read.
  unfoldable pub program_block : List ℕ → List ℕ → ℕ → MemType → Cmd S (Unit {0})
  unfolding enter_block_mode wait_eop
  program_block current block start memtype = do
    if block_programmed memtype then enter_block_mode (prgmode_of current) else pure tt
    adapter.swim_cmd_with_data (writemem device.flash_block_size start) block
    if block_programmed memtype then wait_eop 5 else pure tt

  -- The loop over the blocks, from `i` on. `endless` is the model's: the fuel ran out.
  unfoldable pub write_blocks : ℕ → List ℕ → List ℕ → ℕ → ℕ → ℕ → MemType → Cmd S (Unit {0})
  unfolding program_block
  write_blocks zero current buffer start length i memtype =
      if ltb i length then (λ _. endless) else pure tt
  write_blocks (suc fuel) current buffer start length i memtype =
      let size = device.flash_block_size in
      let rest = write_blocks fuel current buffer start length (i + size) memtype in
      let old = take size (drop i current) in
      let new = take size (drop i buffer) in
      if ltb i length
      then (if same_bytes old new then pure tt else program_block old new (u32 (start + i)) memtype)
        >> rest
      else pure tt

  unfoldable pub lock_mass : MemType → Cmd S (Unit {0})
  unfolding swim_read_byte swim_write_byte
  lock_mass memtype =
      let relock : Cmd S (Unit {0}) = do
        iapsr ← swim_read_byte adapter device.regs.flash_iapsr
        swim_write_byte adapter (clear_bit 3 (clear_bit 1 iapsr)) device.regs.flash_iapsr
      in if block_programmed memtype || is_opt memtype then relock else pure tt

  unfoldable pub write_option_bytes : List ℕ → ℕ → ℕ → Cmd S (Unit {0})
  unfolding swim_write_byte write_options
  write_option_bytes buffer start length = do
    swim_write_byte adapter 0x80 device.regs.flash_cr2
    write_ncr2 0x7f
    write_options buffer start length

  -- The range in whole blocks. Only the buffer's padding is written to, which no caller reads.
  unfoldable pub write_whole_blocks : ℕ → List ℕ → ℕ → ℕ → MemType → Cmd S (Unit {0})
  unfolding write_blocks stlink2_swim_read_range
  write_whole_blocks read_buf_size buffer start length memtype = do
    current ←
        stlink2_swim_read_range adapter read_buf_size start
          (rounded_size length device.flash_block_size)
    padded ← or_fault (extend buffer current length)
    write_blocks length current padded start length 0 memtype

  unfoldable pub stlink2_swim_write_range : ℕ → List ℕ → ℕ → ℕ → MemType → Cmd S ℕ
  unfolding unlock_mass write_option_bytes write_whole_blocks lock_mass
  stlink2_swim_write_range read_buf_size buffer start length memtype = do
    swim_write_byte adapter 0 device.regs.clk_ckdivr
    unlock_mass memtype
    if is_opt memtype
        then write_option_bytes buffer start length
        else write_whole_blocks read_buf_size buffer start length memtype
    lock_mass memtype
    pure length
