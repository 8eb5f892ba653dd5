-- ===== src/Stlink/Session.antt =====
-- stlink.c: opening an ST-LINK V1, its session, and the reset of the chip.
use stm8flash.Common.{ℕ, List, [], ◌∷◌, Bool, true, false, ◌==◌, if◌then◌else◌, u8}
use stm8flash.ByteUtils.{hi, lo}
use stm8flash.Programmer.{Cmd, pure, ◌>>=◌, ◌>>◌}
use stm8flash.Stlink.{unpack_int16_le}
use stm8flash.Stlink.Swim.{
  Usb, unpacked, stlink_test_unit_ready, stlink_cmd, stlink_swim_get_status, wait_ready,
  stlink_swim_write_byte,
}

-- The ten bytes of a SWIM command with its size and address.
abbrev pub swim_bytes : ℕ → ℕ → ℕ → List ℕ
swim_bytes c size start = 0xf4 ∷ c ∷ hi size ∷ lo size ∷ 0 ∷ 0 ∷ hi start ∷ lo start ∷ 0 ∷ 0 ∷ []

module _ {S : Type 0} (usb : Usb S) where
  -- A command without data and the status behind it, which nothing looks at.
  abbrev command_status : ℕ → List ℕ → Cmd S (Unit {0})
  command_status flags args = do
    answer ← stlink_cmd usb 0 flags args
    status ← stlink_swim_get_status usb
    pure tt

  unfoldable pub start_commands : List ℕ → Cmd S (Unit {0})
  unfolding stlink_cmd stlink_swim_get_status
  start_commands [] = pure tt
  start_commands (c ∷ rest) = do
    command_status 0 (0xf4 ∷ c ∷ 1 ∷ 0 ∷ 0 ∷ 0 ∷ 0 ∷ 0 ∷ 0 ∷ 0 ∷ [])
    start_commands rest

  -- `rounds` bounds the waits for a status that is not busy, here and below.
  unfoldable pub stlink_init_session : ℕ → Cmd S (Unit {0})
  unfolding start_commands wait_ready stlink_cmd stlink_swim_get_status stlink_swim_write_byte
  stlink_init_session rounds = do
    start_commands (7 ∷ 7 ∷ 8 ∷ 7 ∷ 4 ∷ [])
    status ← wait_ready usb rounds
    command_status 0 (0xf4 ∷ 3 ∷ 0 ∷ [])
    command_status 0 (0xf4 ∷ 5 ∷ 0 ∷ 0 ∷ 0 ∷ 0 ∷ 0 ∷ 0 ∷ 0 ∷ 0 ∷ [])
    first ← stlink_swim_write_byte usb 0xa0 0x7f80
    command_status 0 (0xf4 ∷ 8 ∷ 0 ∷ 1 ∷ 0 ∷ 0 ∷ 0x7f ∷ 0x80 ∷ 0xa0 ∷ 0 ∷ [])
    command_status 0 (0xf4 ∷ 6 ∷ 0 ∷ 1 ∷ 0 ∷ 0 ∷ 0x7f ∷ 0x99 ∷ 0xa0 ∷ 0 ∷ [])
    second ← stlink_swim_write_byte usb 0xb0 0x7f80
    command_status 0 (0xf4 ∷ 3 ∷ 1 ∷ [])
    third ← stlink_swim_write_byte usb 0xb4 0x7f80
    pure tt

  unfoldable pub stlink_finish_session : Cmd S (Unit {0})
  unfolding stlink_cmd stlink_swim_get_status stlink_swim_write_byte
  stlink_finish_session = do
    result ← stlink_swim_write_byte usb 0xb6 0x7f80
    command_status 0 (0xf4 ∷ 5 ∷ 0 ∷ 1 ∷ 0 ∷ 0 ∷ 0x7f ∷ 0x80 ∷ 0xb6 ∷ 0 ∷ [])
    command_status 0 (0xf4 ∷ 7 ∷ 0 ∷ 1 ∷ 0 ∷ 0 ∷ 0x7f ∷ 0x80 ∷ 0xb6 ∷ 0 ∷ [])
    command_status 0 (0xf4 ∷ 3 ∷ 1 ∷ [])

  -- The status 0 starts the initialization, behind which the next case returns true too.
  unfoldable pub start_by_status : ℕ → Cmd S Bool
  unfolding stlink_cmd
  start_by_status status =
      let started : Cmd S Bool = do
        first ← stlink_cmd usb 0 0x80 (0xf3 ∷ 7 ∷ [])
        second ← stlink_cmd usb 0 0 (0xf4 ∷ 0 ∷ [])
        third ← stlink_cmd usb 2 0x80 (0xf4 ∷ 0x0d ∷ [])
        fourth ← stlink_cmd usb 8 0x80 (0xf4 ∷ 2 ∷ 1 ∷ [])
        pure true
      in if status == 0 then started else if status == 3 then pure true else pure false

  unfoldable pub stlink_swim_srst : Cmd S (Unit {0})
  unfolding stlink_cmd stlink_swim_get_status
  stlink_swim_srst = command_status 0x80 (swim_bytes 8 1 0)

  -- The inquiry is called with one argument less than it takes: `argument` is what is found there.
  unfoldable pub stlink_open : ℕ → Cmd S Bool
  unfolding stlink_test_unit_ready stlink_cmd start_by_status unpack_int16_le
  stlink_open argument = do
    first ← stlink_test_unit_ready usb
    version ← stlink_cmd usb 6 0x80 (0xf1 ∷ 0x80 ∷ 0 ∷ 0 ∷ 0 ∷ 0 ∷ [])
    second ← stlink_test_unit_ready usb
    inquiry ← stlink_cmd usb 18 0x80 (0x12 ∷ 0x80 ∷ 0 ∷ 0 ∷ 0x20 ∷ u8 argument ∷ [])
    third ← stlink_test_unit_ready usb
    mode ← stlink_cmd usb 2 0x80 (0xf5 ∷ 0 ∷ [])
    fourth ← stlink_test_unit_ready usb
    status ← unpacked usb (unpack_int16_le mode.1)
    start_by_status status
