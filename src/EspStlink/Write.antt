-- ===== src/EspStlink/Write.antt =====
-- espstlink.c: espstlink_swim_write_range.
use stm8flash.Common.{
  ℕ, zero, suc, ◌+◌, ◌-◌, List, [], ◌∷◌, ◌++◌, Bool, true, false, ◌&&◌, ◌||◌, ltb, ◌==◌,
  if◌then◌else◌,
}
use stm8flash.Common.{u32, bit, clear_bit, length as size_of, take, drop}
use stm8flash.Device.{Device}
use stm8flash.Programmer.{
  MemType, Cmd, pure, fault, endless, try, or_fault, block_programmed, is_opt, ◌>>=◌, ◌>>◌,
}
use stm8flash.Programmer.Block.{rounded_size, same_bytes, extend, prgmode_of}
use stm8flash.LibEspStlink.{Serial, Link, espstlink_swim_write}
use stm8flash.EspStlink.{
  minus_one, espstlink_read_byte, espstlink_write_byte, espstlink_prepare_for_flash,
  espstlink_wait_until_transfer_completes, espstlink_swim_read_range,
}

module _ {S : Type 0} (serial : Serial S) (device : Device) where
  abbrev write_ncr2 : ℕ → Cmd (Link S) Bool
  write_ncr2 byte =
      if device.regs.flash_ncr2 == 0
      then pure true
      else espstlink_write_byte serial byte device.regs.flash_ncr2

  -- EOP of FLASH_IAPSR; a read that fails gives -1, whose bit is set too.
  abbrev end_of_programming : Cmd (Link S) Bool
  end_of_programming = do
    iapsr ← espstlink_read_byte serial device.regs.flash_iapsr
    pure (bit iapsr 2 == 1)

  -- The loop over the option bytes, from `i` on, `count` of them left; the result is `i` behind it.
  unfoldable pub option_loop : List ℕ → ℕ → ℕ → ℕ → Cmd (Link S) ℕ
  unfolding espstlink_write_byte espstlink_read_byte try
  option_loop buffer start i zero = pure i
  option_loop [] start i (suc count) = λ _. fault
  option_loop (b ∷ buffer) start i (suc count) = do
    written ← espstlink_write_byte serial b start
    try 5 end_of_programming
    option_loop buffer (u32 (start + 1)) (i + 1) count

  unfoldable pub program_option_bytes : List ℕ → ℕ → ℕ → Cmd (Link S) ℕ
  unfolding option_loop espstlink_write_byte
  program_option_bytes buffer start length = do
    selected ← espstlink_write_byte serial 0x80 device.regs.flash_cr2
    inverted ← write_ncr2 0x7f
    option_loop buffer start 0 length

  unfoldable pub select_mode : ℕ → Cmd (Link S) Bool
  unfolding espstlink_write_byte
  select_mode prgmode = do
    selected ← espstlink_write_byte serial prgmode device.regs.flash_cr2
    write_ncr2 (4294967295 - prgmode)

  -- A block that differs: whether it was sent to the device.
  unfoldable pub send_block : List ℕ → List ℕ → ℕ → MemType → Cmd (Link S) Bool
  unfolding select_mode espstlink_swim_write espstlink_wait_until_transfer_completes
  send_block current block start memtype =
      let waited : Bool → Cmd (Link S) Bool = λ done.
        if done && block_programmed memtype
        then espstlink_wait_until_transfer_completes serial device >> pure done
        else pure done in
      do
        selected ←
            (if block_programmed memtype then select_mode (prgmode_of current) else pure true)
        done ← espstlink_swim_write serial block start device.flash_block_size
        waited done

  -- The loop over the blocks: `i` behind it, and whether every block was sent, since a block that
  -- was not makes the function return at once.
  unfoldable pub block_loop : ℕ → List ℕ → List ℕ → ℕ → ℕ → ℕ → MemType → Cmd (Link S) (ℕ × Bool)
  unfolding send_block
  block_loop zero current buffer start length i memtype =
      if ltb i length then (λ _. endless) else pure (i, true)
  block_loop (suc fuel) current buffer start length i memtype =
      let size = device.flash_block_size in
      let rest = block_loop fuel current buffer start length (i + size) memtype in
      let old = take size (drop i current) in
      let new = take size (drop i buffer) in
      let round : Cmd (Link S) (ℕ × Bool) = do
        sent ←
            (if same_bytes old new then pure true else send_block old new (u32 (start + i)) memtype)
        if sent then rest else pure (i, false)
      in if ltb i length then round else pure (i, true)

  -- `stack` is what alloca finds in `current`, which stays there as far as nothing is read.
  unfoldable pub program_blocks : List ℕ → List ℕ → ℕ → ℕ → MemType → Cmd (Link S) (ℕ × Bool)
  unfolding espstlink_swim_read_range block_loop
  program_blocks stack buffer start length memtype = do
    bytes ← espstlink_swim_read_range serial start (rounded_size length device.flash_block_size)
    let current = bytes ++ drop (size_of bytes) stack
    padded ← or_fault (extend buffer current length)
    block_loop length current padded start length 0 memtype

  unfoldable pub relock : MemType → Cmd (Link S) Bool
  unfolding espstlink_read_byte espstlink_write_byte
  relock memtype =
      let reset : Cmd (Link S) Bool = do
        iapsr ← espstlink_read_byte serial device.regs.flash_iapsr
        if iapsr == minus_one
            then pure false
            else espstlink_write_byte serial (clear_bit 3 (clear_bit 1 iapsr))
                device.regs.flash_iapsr
      in if block_programmed memtype || is_opt memtype then reset else pure true

  -- What espstlink_prepare_for_flash returns is not looked at.
  unfoldable pub espstlink_swim_write_range : List ℕ → List ℕ → ℕ → ℕ → MemType → Cmd (Link S) ℕ
  unfolding espstlink_prepare_for_flash program_option_bytes program_blocks relock
  espstlink_swim_write_range stack buffer start length memtype =
      let ended : ℕ × Bool → Cmd (Link S) ℕ =
        λ (i, all_sent). if all_sent then relock memtype >> pure i else pure i in
      let option_bytes : Cmd (Link S) (ℕ × Bool) = do
        i ← program_option_bytes buffer start length
        pure (i, true)
      in do
        prepared ← espstlink_prepare_for_flash serial device memtype
        outcome ←
            (if is_opt memtype
              then option_bytes
              else program_blocks stack buffer start length memtype)
        ended outcome
