-- ===== src/EspStlink.antt =====
-- espstlink.c: an ESP-STLINK as a programmer. usleep and the prints are left out.
pub mod Read
pub mod Write
mod Tests
use stm8flash.Common.{
  ℕ, zero, suc, ◌+◌, ◌-◌, List, [], ◌∷◌, ◌++◌, Option, none, some, Bool, true, false, ◌&&◌, ◌||◌,
  not, ltb, ◌==◌, if◌then◌else◌, length, take, drop, u8, u32, bit, set_bit, clear_bit,
}
use stm8flash.Device.{Device}
use stm8flash.Programmer.{
  MemType, flash, eeprom, opt, Cmd, ok, pure, exit, fault, endless, write_protected, try, or_fault,
  ◌>>=◌, ◌>>◌,
}
use stm8flash.Programmer.{block_programmed, is_opt}
use stm8flash.Programmer.Block.{rounded_size, same_bytes, extend, prgmode_of}
use stm8flash.LibEspStlink.{
  Serial, Link, espstlink_swim_read, espstlink_swim_write, espstlink_swim_entry,
  espstlink_swim_srst, espstlink_reset, espstlink_fetch_version,
}

abbrev pub dm_csr2 : ℕ
dm_csr2 = 0x7f99

-- The int -1, as its bit pattern.
abbrev pub minus_one : ℕ
minus_one = 4294967295

abbrev pub byte_or_minus_one : Option (List ℕ) → ℕ
byte_or_minus_one (some (b ∷ _)) = b
byte_or_minus_one _ = minus_one

module _ {S : Type 0} (serial : Serial S) where
  unfoldable pub espstlink_read_byte : ℕ → Cmd (Link S) ℕ
  unfolding espstlink_swim_read
  espstlink_read_byte addr = do
    answer ← espstlink_swim_read serial addr 1
    pure (byte_or_minus_one answer)

  unfoldable pub espstlink_write_byte : ℕ → ℕ → Cmd (Link S) Bool
  unfolding espstlink_swim_write
  espstlink_write_byte byte addr = espstlink_swim_write serial (u8 byte ∷ []) addr 1

  -- A step of a chain of `if (!step) return 0`.
  abbrev pub and_if : Cmd (Link S) Bool → Cmd (Link S) Bool → Cmd (Link S) Bool
  and_if step next = step >>= λ done. if done then next else pure false

  abbrev reset_if : Bool → Bool → ℕ → Cmd (Link S) Bool
  reset_if supported input enable =
      if supported then espstlink_reset serial input enable else pure true

  unfoldable pub espstlink_swim_reconnect : Cmd (Link S) Bool
  unfolding espstlink_reset espstlink_swim_entry espstlink_swim_srst espstlink_write_byte
  espstlink_swim_reconnect s =
      let supported : Bool = ltb 0 s.version in
      let last : Cmd (Link S) Bool = do
        ret ← espstlink_write_byte 0xa0 0x7f80
        and_if (reset_if supported true 0) (pure ret)
      in and_if (reset_if supported false 1)
        (and_if (espstlink_swim_entry serial) (and_if (espstlink_swim_srst serial) last)) s

  unfoldable pub espstlink_stall : Bool → Cmd (Link S) Bool
  unfolding espstlink_read_byte espstlink_write_byte
  espstlink_stall stall = do
    csr ← espstlink_read_byte dm_csr2
    if csr == minus_one
        then pure false
        else espstlink_write_byte (if stall then set_bit 3 csr else clear_bit 3 csr) dm_csr2

  module _ (device : Device) where
    unfoldable pub unlock_mass : MemType → Cmd (Link S) Bool
    unfolding espstlink_write_byte
    unlock_mass flash =
        and_if (espstlink_write_byte 0x56 device.regs.flash_pukr)
          (espstlink_write_byte 0xae device.regs.flash_pukr)
    unlock_mass eeprom =
        and_if (espstlink_write_byte 0xae device.regs.flash_dukr)
          (espstlink_write_byte 0x56 device.regs.flash_dukr)
    unlock_mass opt =
        and_if (espstlink_write_byte 0xae device.regs.flash_dukr)
          (espstlink_write_byte 0x56 device.regs.flash_dukr)
    unlock_mass _ = pure true

    unfoldable pub espstlink_prepare_for_flash : MemType → Cmd (Link S) Bool
    unfolding espstlink_stall unlock_mass
    espstlink_prepare_for_flash memtype = and_if (espstlink_stall true) (unlock_mass memtype)

    -- The wait for EOP, with `retries` reads left.
    unfoldable pub wait_eop : ℕ → Cmd (Link S) (Unit {0})
    unfolding espstlink_read_byte
    wait_eop zero = pure tt
    wait_eop (suc retries) = do
      iapsr ← espstlink_read_byte device.regs.flash_iapsr
      if bit iapsr 2 == 1
          then pure tt
          else if bit iapsr 0 == 1
          then exit write_protected
          else wait_eop retries

    unfoldable pub espstlink_wait_until_transfer_completes : Cmd (Link S) (Unit {0})
    unfolding wait_eop
    espstlink_wait_until_transfer_completes = wait_eop 5

  -- The loop of espstlink_swim_read_range, with `remaining` bytes to read from `start` on: the
  -- bytes that are stored, of which the caller learns the number. `endless`: the fuel ran out.
  unfoldable pub read_loop : ℕ → ℕ → ℕ → Cmd (Link S) (List ℕ)
  unfolding espstlink_swim_read
  read_loop zero start remaining = if ltb 0 remaining then (λ _. endless) else pure []
  read_loop (suc fuel) start remaining =
      let size = if ltb 255 remaining then 255 else remaining in
      let later : List ℕ → Cmd (Link S) (List ℕ) = λ bytes. do
        rest ← read_loop fuel (u32 (start + size)) (remaining - size)
        pure (bytes ++ rest)
      in let round : Cmd (Link S) (List ℕ) = do
        answer ← espstlink_swim_read serial start size
        elim answer [ none ↦ pure [] | some bytes ↦ later bytes ]
        in if ltb 0 remaining then round else pure []

  unfoldable pub espstlink_swim_read_range : ℕ → ℕ → Cmd (Link S) (List ℕ)
  unfolding read_loop
  espstlink_swim_read_range start length = read_loop length start length

  unfoldable pub espstlink_srst : Cmd (Link S) (Unit {0})
  unfolding espstlink_stall
  espstlink_srst = do srst ← espstlink_swim_srst serial; stalled ← espstlink_stall false; pure tt

  -- espstlink_pgm_open, where espstlink_open has opened the line.
  unfoldable pub espstlink_pgm_open : Cmd (Link S) Bool
  unfolding espstlink_fetch_version espstlink_swim_reconnect
  espstlink_pgm_open = and_if (espstlink_fetch_version serial) espstlink_swim_reconnect
