-- ===== src/Stlink/Swim.antt =====
-- stlink.c: the SCSI commands of an ST-LINK V1 and what is built of them. libusb is a parameter;
-- usleep and the prints are left out. stlink_send_message, stlink_read_and_cmp and
-- stlink_cmd_swim_read, which nothing calls, are left out too.
use stm8flash.Common.{
  ℕ, zero, suc, ◌-◌, List, [], ◌∷◌, ◌++◌, Option, none, some, Bool, ◌&&◌, ◌==◌, if◌then◌else◌,
  length, replicate, u8, bit,
}
use stm8flash.ByteUtils.{hi, lo}
use stm8flash.Programmer.{Cmd, ok, pure, exit, fault, endless, assertion_failed, ◌>>=◌, ◌>>◌}
use stm8flash.Stlink.{Cbw, Csw, pack_usb_cbw, unpack_usb_csw, unpack_int16_le, unpack_int32_le}

-- libusb_bulk_transfer to endpoint 2, with the number of bytes that were transferred, and from
-- endpoint 1, with the bytes; whether it returned 0.
pub record Usb (S : Type 0) : Type 0 where
  pub bulk_out : List ℕ → S → (Bool × ℕ) × S
  pub bulk_in : ℕ → S → (Bool × List ℕ) × S

-- The signature and the tag of every command block.
abbrev pub signed : Cbw → Cbw
signed cbw = record cbw { signature = 0x55534243; tag = 0x707ec281 }

-- A command block without its signature and tag, whose `cb` is filled up with zeros.
abbrev pub command_block : ℕ → ℕ → ℕ → List ℕ → Cbw
command_block transfer_length flags cblength args = record {
  signature = 0;
  tag = 0;
  transfer_length = transfer_length;
  flags = flags;
  lun = 0;
  cblength = cblength;
  cb = args ++ replicate (16 - length args) 0;
}

module _ {S : Type 0} (usb : Usb S) where
  abbrev pub transfer_out : List ℕ → Cmd S (Bool × ℕ)
  transfer_out bytes s = let (result, t) = usb.bulk_out bytes s in ok result t

  abbrev transfer_in : ℕ → Cmd S (Bool × List ℕ)
  transfer_in size s = let (result, t) = usb.bulk_in size s in ok result t

  abbrev pub assert : Bool → Cmd S (Unit {0})
  assert b = if b then pure tt else exit assertion_failed

  -- What a function that unpacks gives; it reads no byte that was not received.
  abbrev pub unpacked : {A : Type 0} → Option A → Cmd S A
  unpacked none = λ _. fault
  unpacked (some a) = pure a

  -- Whether libusb returned 0.
  unfoldable pub stlink_send_cbw : Cbw → Cmd S Bool
  unfolding pack_usb_cbw
  stlink_send_cbw cbw = transfer_out (pack_usb_cbw (signed cbw)) >>= λ (sent, actual).
      (assert (actual == 31) >> pure sent)

  unfoldable pub stlink_read_csw : Cmd S (Bool × Csw)
  unfolding unpack_usb_csw
  stlink_read_csw = transfer_in 13 >>= λ (received, buf).
      (assert (length buf == 13) >> (unpacked (unpack_usb_csw buf) >>= λ csw. pure (received, csw)))

  unfoldable pub stlink_test_unit_ready : Cmd S Bool
  unfolding stlink_send_cbw stlink_read_csw
  stlink_test_unit_ready = do
    sent ← stlink_send_cbw (command_block 0 0 6 [])
    assert sent
    answer ← stlink_read_csw
    assert answer.0
    pure (answer.1.status == 0)

  -- Fewer bytes than `count` may arrive.
  unfoldable pub stlink_read : ℕ → Cmd S (List ℕ)
  stlink_read count = transfer_in count >>= λ (received, bytes). (assert received >> pure bytes)

  -- The data of a command that has some.
  abbrev command_data : ℕ → Cmd S (List ℕ)
  command_data zero = pure []
  command_data (suc n) = stlink_read (suc n)

  -- stlink_cmd: whether the status is 0, and the data. `args` are the bytes of `cb`.
  unfoldable pub stlink_cmd : ℕ → ℕ → List ℕ → Cmd S (Bool × List ℕ)
  unfolding stlink_send_cbw stlink_read stlink_read_csw
  stlink_cmd transfer_length flags args = do
    sent ← stlink_send_cbw (command_block transfer_length flags (length args) args)
    assert sent
    bytes ← command_data transfer_length
    answer ← stlink_read_csw
    pure (answer.1.status == 0, bytes)

  unfoldable pub stlink_swim_get_status : Cmd S ℕ
  unfolding stlink_cmd unpack_int32_le
  stlink_swim_get_status = do
    answer ← stlink_cmd 4 0x80 (0xf4 ∷ 9 ∷ 1 ∷ 0 ∷ 0 ∷ 0 ∷ 0 ∷ 0 ∷ 0 ∷ 0 ∷ [])
    unpacked (unpack_int32_le answer.1)

  -- The wait until the status is not busy; `endless`: it was in so many rounds.
  unfoldable pub wait_ready : ℕ → Cmd S ℕ
  unfolding stlink_swim_get_status
  wait_ready zero = λ _. endless
  wait_ready (suc rounds) = do
    result ← stlink_swim_get_status
    if bit result 0 == 1 then wait_ready rounds else pure result

  -- One attempt of stlink_swim_write_byte: the command, and the status that it leaves.
  unfoldable pub write_attempt : ℕ → ℕ → Cmd S ℕ
  unfolding stlink_cmd unpack_int16_le
  write_attempt byte start = do
    written ←
        stlink_cmd 0 0 (
          0xf4 ∷ 0x0a ∷ 0 ∷ 1 ∷ 0 ∷ 0 ∷ hi start ∷ lo start ∷ byte ∷ 0 ∷ 0 ∷ 0 ∷ 0 ∷ 0 ∷ 0 ∷ 0 ∷ [])
    answer ← stlink_cmd 4 0x80 (0xf4 ∷ 9 ∷ 0 ∷ 1 ∷ 0 ∷ 0 ∷ hi start ∷ lo start ∷ byte ∷ 0 ∷ [])
    unpacked (unpack_int16_le answer.1)

  -- The loop: `continue` behind a full buffer goes to the test, which an error passes; `left` are
  -- the attempts that `tries < 5` allows behind this one.
  unfoldable pub write_loop : ℕ → ℕ → ℕ → Cmd S ℕ
  unfolding write_attempt
  write_loop zero byte start = write_attempt byte start
  write_loop (suc left) byte start = do
    result ← write_attempt byte start
    if bit result 2 == 1 && bit result 0 == 1 then write_loop left byte start else pure result

  unfoldable pub stlink_swim_write_byte : ℕ → ℕ → Cmd S ℕ
  unfolding write_loop
  stlink_swim_write_byte byte start = write_loop 4 (u8 byte) start
