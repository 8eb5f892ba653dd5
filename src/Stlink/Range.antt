-- ===== src/Stlink/Range.antt =====
-- stlink.c: the reading and writing of ranges in a session of an ST-LINK V1.
use stm8flash.Common.{
  ℕ, zero, suc, ◌+◌, ◌-◌, List, [], ◌∷◌, ◌++◌, ◌||◌, ltb, leb, ◌==◌, if◌then◌else◌,
  length as size_of, take, drop, replicate, u32,
}
use stm8flash.ByteUtils.{hi, lo}
use stm8flash.Device.{Device}
use stm8flash.Programmer.{
  MemType, flash, eeprom, opt, Cmd, pure, fault, endless, block_programmed, is_opt, ◌>>=◌, ◌>>◌,
}
use stm8flash.Stlink.Swim.{
  Usb, transfer_out, assert, command_block, stlink_send_cbw, stlink_read_csw, stlink_cmd,
  wait_ready, stlink_swim_write_byte,
}
use stm8flash.Stlink.Session.{swim_bytes, stlink_init_session, stlink_finish_session}

module _ {S : Type 0} (usb : Usb S) where
  -- The loop of stlink_swim_read_range, with `remaining` bytes to read from `start` on; `endless`
  -- if the fuel ran out. The address is packed in 16 bits.
  unfoldable pub read_loop : ℕ → ℕ → ℕ → ℕ → Cmd S (List ℕ)
  unfolding stlink_cmd wait_ready
  read_loop rounds zero start remaining = if ltb 0 remaining then (λ _. endless) else pure []
  read_loop rounds (suc fuel) start remaining =
      let size = if ltb 6144 remaining then 6144 else remaining in
      let round : Cmd S (List ℕ) = do
        asked ← stlink_cmd usb 0 0x80 (swim_bytes 0x0b size start)
        ready ← wait_ready usb rounds
        answer ← stlink_cmd usb size 0x80 (swim_bytes 0x0c size start)
        rest ← read_loop rounds fuel (u32 (start + size)) (remaining - size)
        pure (answer.1 ++ rest)
      in if ltb 0 remaining then round else pure []

  module _ (device : Device) (rounds : ℕ) where
    -- The bytes that arrive; the function returns `length`, however many these are.
    unfoldable pub stlink_swim_read_range : ℕ → ℕ → Cmd S (List ℕ)
    unfolding stlink_init_session stlink_swim_write_byte read_loop stlink_finish_session
    stlink_swim_read_range start length = do
      stlink_init_session usb rounds
      clock ← stlink_swim_write_byte usb 0 device.regs.clk_ckdivr
      bytes ← read_loop rounds length start length
      stlink_finish_session usb
      pure bytes

    -- The tail of a block in a transfer of its own.
    abbrev send_tail : List ℕ → Cmd S (Unit {0})
    send_tail tail = transfer_out usb tail >>= λ (sent, actual).
        (assert usb sent >> assert usb (actual == size_of tail))

    -- The first bytes of a block go with the command, 8 of them or 7 behind a 0.
    unfoldable pub stlink_swim_write_block : List ℕ → ℕ → ℕ → ℕ → Cmd S ℕ
    unfolding stlink_send_cbw stlink_read_csw wait_ready
    stlink_swim_write_block buffer start length padding =
        let length1 = 8 - padding in
        let length2 = length + padding - 8 in
        let front = if padding == 0 then [] else 0 ∷ [] in
        let back = if padding == 0 then [] else 1 ∷ [] in
        let args =
          0xf4
          ∷ 0x0a
          ∷ hi length
          ∷ lo length
          ∷ 0
          ∷ 0
          ∷ hi start
          ∷ lo start
          ∷ (front ++ take length1 buffer) in
        do
          assert usb (leb padding 1)
          assert usb (length1 + length2 == length)
          assert usb (ltb length2 506)
          assert usb (ltb 0 length2)
          sent ← stlink_send_cbw usb (command_block (length2 + padding) 0 16 args)
          assert usb sent
          send_tail (take length2 (drop length1 buffer) ++ back)
          answer ← stlink_read_csw usb
          assert usb (answer.1.status == 0)
          wait_ready usb rounds

    unfoldable pub unlock_mass : MemType → Cmd S (Unit {0})
    unfolding stlink_swim_write_byte
    unlock_mass flash = do
      first ← stlink_swim_write_byte usb 0x56 device.regs.flash_pukr
      second ← stlink_swim_write_byte usb 0xae device.regs.flash_pukr
      pure tt
    unlock_mass eeprom = do
      first ← stlink_swim_write_byte usb 0xae device.regs.flash_dukr
      second ← stlink_swim_write_byte usb 0x56 device.regs.flash_dukr
      pure tt
    unlock_mass opt = do
      first ← stlink_swim_write_byte usb 0xae device.regs.flash_dukr
      second ← stlink_swim_write_byte usb 0x56 device.regs.flash_dukr
      pure tt
    unlock_mass _ = pure tt

    -- A byte to FLASH_IAPSR, unless RAM is written.
    unfoldable pub write_iapsr : ℕ → MemType → Cmd S (Unit {0})
    unfolding stlink_swim_write_byte
    write_iapsr byte memtype =
        if block_programmed memtype || is_opt memtype
        then (stlink_swim_write_byte usb byte device.regs.flash_iapsr >> pure tt)
        else pure tt

    unfoldable pub select_mode : MemType → Cmd S (Unit {0})
    unfolding stlink_swim_write_byte
    select_mode memtype =
        let inverted : Cmd S (Unit {0}) =
          if device.regs.flash_ncr2 == 0
          then pure tt
          else (stlink_swim_write_byte usb 0xfe device.regs.flash_ncr2 >> pure tt) in
        if block_programmed memtype || is_opt memtype
        then (stlink_swim_write_byte usb 1 device.regs.flash_cr2 >> inverted)
        else pure tt

    -- The loop over the blocks from `i` on, the last of which is filled up with zeros. What
    -- stlink_swim_write_block returns only decides on a message.
    unfoldable pub write_loop : ℕ → List ℕ → ℕ → ℕ → ℕ → MemType → Cmd S (Unit {0})
    unfolding select_mode stlink_swim_write_block
    write_loop zero buffer start length i memtype = if ltb i length then (λ _. endless) else pure tt
    write_loop (suc fuel) buffer start length i memtype =
        let size = device.flash_block_size in
        let count = if ltb size (length - i) then size else length - i in
        let rest = write_loop fuel buffer start length (i + size) memtype in
        let block = take count (drop i buffer) ++ replicate (size - count) 0 in
        let round : Cmd S (Unit {0}) = do
          select_mode memtype
          result ← stlink_swim_write_block block (u32 (start + i)) size 0
          rest
        in if ltb i length then (if size_of block == size then round else (λ _. fault)) else pure tt

    unfoldable pub stlink_swim_write_range : List ℕ → ℕ → ℕ → MemType → Cmd S ℕ
    unfolding stlink_init_session stlink_swim_write_byte write_iapsr unlock_mass write_loop
        stlink_finish_session
    stlink_swim_write_range buffer start length memtype = do
      stlink_init_session usb rounds
      clock ← stlink_swim_write_byte usb 0 device.regs.clk_ckdivr
      write_iapsr 0 memtype
      unlock_mass memtype
      write_iapsr 0x56 memtype
      write_loop length buffer start length 0 memtype
      write_iapsr 0x56 memtype
      stlink_finish_session usb
      pure length
