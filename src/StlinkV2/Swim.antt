-- ===== src/StlinkV2/Swim.antt =====
-- stlinkv2.c: single bytes and ranges of the chip's memory over SWIM, and the session: open, reset
-- and close. usleep and the prints are left out.
use stm8flash.Common.{
  ℕ, zero, suc, ◌+◌, ◌-◌, List, [], ◌∷◌, ◌++◌, ltb, ◌==◌, if◌then◌else◌, u8, u32,
}
use stm8flash.Common.{◌<<◌, bit, set_bit}
use stm8flash.ByteUtils.{eh, ex, hi, lo}
use stm8flash.Programmer.{Cmd, pure, fault, endless, ◌>>=◌, ◌>>◌}
use stm8flash.StlinkV2.{Adapter}

-- The first bytes of SWIM_WRITEMEM and of SWIM_READMEM of `size` bytes at an address.
abbrev pub writemem : ℕ → ℕ → List ℕ
writemem size start =
    0xf4 ∷ 0x0a ∷ hi size ∷ lo size ∷ eh start ∷ ex start ∷ hi start ∷ lo start ∷ []

abbrev pub readmem : ℕ → ℕ → List ℕ
readmem size start = 0xf4 ∷ 0x0b ∷ hi size ∷ lo size ∷ 0 ∷ ex start ∷ hi start ∷ lo start ∷ []

module _ {S : Type 0} (adapter : Adapter S) where
  unfoldable pub swim_cmd : List ℕ → Cmd S (Unit {0})
  swim_cmd args = adapter.swim_cmd_with_data args []

  unfoldable pub swim_write_byte : ℕ → ℕ → Cmd S (Unit {0})
  unfolding swim_cmd
  swim_write_byte byte start =
      swim_cmd (0xf4 ∷ 0x0a ∷ 0 ∷ 1 ∷ 0 ∷ ex start ∷ hi start ∷ lo start ∷ u8 byte ∷ [])

  -- msg_recv_int8: the byte that arrives.
  abbrev pub received_byte : List ℕ → Cmd S ℕ
  received_byte (b ∷ _) = pure b
  received_byte [] = λ _. fault

  -- SWIM_READMEM, SWIM_READBUF and the bytes.
  unfoldable pub read_memory : ℕ → ℕ → Cmd S (List ℕ)
  unfolding swim_cmd
  read_memory size start = do
    swim_cmd (readmem size start)
    adapter.stlink2_cmd (0xf4 ∷ 0x0c ∷ [])
    adapter.msg_recv size

  unfoldable pub swim_read_byte : ℕ → Cmd S ℕ
  unfolding read_memory
  swim_read_byte addr = do bytes ← read_memory 1 addr; received_byte bytes

  module _ (read_buf_size : ℕ) where
    -- The loop of stlink2_swim_read_range: the bytes that it stores one behind the other. `endless`
    -- is the model's: the fuel ran out.
    unfoldable pub read_loop : ℕ → ℕ → ℕ → Cmd S (List ℕ)
    unfolding read_memory
    read_loop zero start remaining = if ltb 0 remaining then (λ _. endless) else pure []
    read_loop (suc fuel) start remaining =
        let size = if ltb read_buf_size remaining then read_buf_size else remaining in
        let round : Cmd S (List ℕ) = do
          bytes ← read_memory size start
          rest ← read_loop fuel (u32 (start + size)) (remaining - size)
          pure (bytes ++ rest)
        in if ltb 0 remaining then round else pure []

    -- A round reads a byte at least, if the adapter's buffer holds one.
    unfoldable pub stlink2_swim_read_range : ℕ → ℕ → Cmd S (List ℕ)
    unfolding read_loop
    stlink2_swim_read_range start length = read_loop length start length

-- What the version, the mode of the adapter and its buffer's size are, of stlink2_open.
abbrev pub mode_of : List ℕ → ℕ
mode_of (mode ∷ _) = mode
mode_of [] = 0

-- load_int of two bytes, the lower first.
abbrev pub size_of : List ℕ → ℕ
size_of (a ∷ b ∷ _) = a + (b << 8)
size_of _ = 0

module _ {S : Type 0} (adapter : Adapter S) where
  -- The commands that take the adapter out of the mode it is in.
  unfoldable pub leave_mode : ℕ → Cmd S (Unit {0})
  leave_mode mode =
      if mode == 2
      then adapter.stlink2_cmd (0xf2 ∷ 0x21 ∷ [])
      else if mode == 4
      then adapter.stlink2_cmd (0xf3 ∷ 0x07 ∷ [])
      else if mode == 0
      then adapter.stlink2_cmd (0xf3 ∷ 0x07 ∷ [])
      else if mode == 1
      then adapter.stlink2_cmd (0xf3 ∷ 0x07 ∷ [])
      else pure tt

  -- The loop that waits for HSIT: `retries` more reads behind the first, and the last value read.
  unfoldable pub wait_hsit : ℕ → Cmd S ℕ
  unfolding swim_read_byte
  wait_hsit zero = swim_read_byte adapter 0x7f80
  wait_hsit (suc retries) = do
    csr ← swim_read_byte adapter 0x7f80
    if bit csr 1 == 1 then pure csr else wait_hsit retries

  unfoldable pub set_speed : ℕ → Cmd S (Unit {0})
  unfolding swim_cmd swim_write_byte
  set_speed csr = do
    swim_write_byte adapter (set_bit 4 csr) 0x7f80
    swim_cmd adapter (0xf4 ∷ 0x03 ∷ 1 ∷ [])

  unfoldable pub stlink2_high_speed : Cmd S (Unit {0})
  unfolding wait_hsit swim_cmd set_speed
  stlink2_high_speed = do
    csr ← wait_hsit 10
    swim_cmd adapter (0xf4 ∷ 0x06 ∷ [])
    if bit csr 1 == 1 then set_speed csr else pure tt

  -- The result is read_buf_size; stlink2_open itself returns true.
  unfoldable pub stlink2_open : Cmd S ℕ
  unfolding leave_mode swim_cmd swim_write_byte stlink2_high_speed
  stlink2_open = do
    adapter.stlink2_cmd (0xf1 ∷ [])
    version ← adapter.msg_recv 6
    adapter.stlink2_cmd (0xf5 ∷ [])
    answer ← adapter.msg_recv 2
    leave_mode (mode_of answer)
    if mode_of answer == 3 then pure tt else adapter.stlink2_cmd (0xf4 ∷ 0 ∷ [])
    adapter.stlink2_cmd (0xf4 ∷ 0x0d ∷ [])
    read_buf_size ← adapter.msg_recv 2
    adapter.stlink2_cmd (0xf4 ∷ 0x02 ∷ 1 ∷ [])
    cap ← adapter.msg_recv 8
    swim_cmd adapter (0xf4 ∷ 0x07 ∷ [])
    swim_cmd adapter (0xf4 ∷ 0x04 ∷ [])
    swim_write_byte adapter 0xa1 0x7f80
    swim_cmd adapter (0xf4 ∷ 0x08 ∷ [])
    stlink2_high_speed
    pure (size_of read_buf_size)

  unfoldable pub stlink2_srst : Cmd S (Unit {0})
  unfolding swim_read_byte swim_write_byte swim_cmd
  stlink2_srst = do
    csr ← swim_read_byte adapter 0x7f80
    swim_write_byte adapter (set_bit 2 csr) 0x7f80
    swim_cmd adapter (0xf4 ∷ 0x05 ∷ [])

  unfoldable pub stlink2_close : Cmd S (Unit {0})
  stlink2_close = adapter.stlink2_cmd (0xf4 ∷ 0x01 ∷ [])
