-- ===== src/StlinkV2/Usb.antt =====
-- stlinkv2.c: the messages of an ST-LINK V2 over USB, and a SWIM command with the wait behind it.
-- libusb is a parameter, and usleep is left out.
use stm8flash.Common.{
  ℕ, zero, suc, ◌+◌, ◌-◌, List, [], ◌∷◌, ◌++◌, Option, none, some, ltb, ◌==◌, if◌then◌else◌, length,
  drop,
}
use stm8flash.Programmer.{
  Cmd, ok, exited, pure, exit, fault, endless, io_error, swim_error, ◌>>=◌, ◌>>◌,
}
use stm8flash.Programmer.{ProgrammerType, stlink_v21, stlink_v3}
use stm8flash.StlinkV2.{Adapter, command}
use stm8flash.StlinkV2.Status.{Status, same_status}

-- libusb_bulk_transfer: the bytes to an endpoint, of which so many are transferred, and so many
-- bytes at most from an endpoint.
pub record Usb (S : Type 0) : Type 0 where
  pub bulk_out : ℕ → List ℕ → S → ℕ × S
  pub bulk_in : ℕ → ℕ → S → List ℕ × S

-- The endpoints of msg_transfer, without the bit of the direction.
unfoldable pub endpoint_out : ProgrammerType → ℕ
endpoint_out stlink_v21 = 1
endpoint_out stlink_v3 = 1
endpoint_out _ = 2

abbrev pub endpoint_in : ℕ
endpoint_in = 1

module _ {S : Type 0} (usb : Usb S) (type : ProgrammerType) where
  -- msg_transfer in its two directions.
  unfoldable pub transfer_out : List ℕ → Cmd S ℕ
  transfer_out buf s =
      let (n, t) = usb.bulk_out (endpoint_out type) buf s in
      if n == length buf then ok n t else exited (io_error (length buf) n) t

  unfoldable pub transfer_in : ℕ → Cmd S (List ℕ)
  transfer_in size s =
      let (bytes, t) = usb.bulk_in endpoint_in size s in
      if length bytes == size then ok bytes t else exited (io_error size (length bytes)) t

  unfoldable pub send_loop : ℕ → List ℕ → Cmd S (Unit {0})
  unfolding transfer_out
  send_loop fuel [] = pure tt
  send_loop zero (b ∷ buf) = λ _. endless
  send_loop (suc fuel) (b ∷ buf) = do n ← transfer_out (b ∷ buf); send_loop fuel (drop n (b ∷ buf))

  -- A round transfers all that is left, or it leaves the program.
  unfoldable pub msg_send : List ℕ → Cmd S (Unit {0})
  unfolding send_loop
  msg_send buf = send_loop (length buf) buf

  unfoldable pub receive_loop : ℕ → ℕ → Cmd S (List ℕ)
  unfolding transfer_in
  receive_loop fuel zero = pure []
  receive_loop zero (suc size) = λ _. endless
  receive_loop (suc fuel) (suc size) = do
    bytes ← transfer_in (suc size)
    rest ← receive_loop fuel (suc size - length bytes)
    pure (bytes ++ rest)

  unfoldable pub msg_recv : ℕ → Cmd S (List ℕ)
  unfolding receive_loop
  msg_recv size = receive_loop size size

  -- The second message is sent if data are left for it: msg_send of none does nothing.
  abbrev send_both : Option (List ℕ × List ℕ) → Cmd S (Unit {0})
  send_both none = λ _. fault
  send_both (some (cmd_buf, rest)) = do msg_send cmd_buf; msg_send rest

  unfoldable pub stlink2_cmd_internal : List ℕ → List ℕ → Cmd S (Unit {0})
  unfolding msg_send command
  stlink2_cmd_internal args buf = send_both (command 16 args buf)

  -- The four bytes of a status.
  abbrev status_of : List ℕ → Cmd S Status
  status_of (a ∷ b ∷ c ∷ d ∷ _) = pure (record { code = a; second = b; third = c; fourth = d })
  status_of _ = λ _. fault

  unfoldable pub read_status : Cmd S Status
  unfolding stlink2_cmd_internal msg_recv
  read_status = do stlink2_cmd_internal (0xf4 ∷ 0x09 ∷ []) []; bytes ← msg_recv 4; status_of bytes

  -- The loop of swim_cmd_internal. `older` and `last` are the two places of `status`. `endless`:
  -- the adapter has not come to an end in so many rounds.
  unfoldable pub wait_loop : ℕ → ℕ → Status → Status → Cmd S (Unit {0})
  unfolding read_status same_status
  wait_loop zero stalls older last =
      if ltb stalls 4 then (λ _. endless) else exit (swim_error older.code)
  wait_loop (suc rounds) stalls older last =
      let round : Cmd S (Unit {0}) = do
        answer ← read_status
        if answer.code == 0
            then pure tt
            else wait_loop rounds (if same_status answer last then stalls + 1 else 0) last answer
      in if ltb stalls 4 then round else exit (swim_error older.code)

  -- The array `status` holds anything at first.
  module _ (rounds : ℕ) (older last : Status) where
    unfoldable pub swim_cmd_internal : List ℕ → List ℕ → Cmd S (Unit {0})
    unfolding stlink2_cmd_internal wait_loop
    swim_cmd_internal args buf = do stlink2_cmd_internal args buf; wait_loop rounds 0 older last

    abbrev pub usb_adapter : Adapter S
    usb_adapter = record {
      stlink2_cmd = λ args. stlink2_cmd_internal args [];
      swim_cmd_with_data = swim_cmd_internal;
      msg_recv = msg_recv;
    }
