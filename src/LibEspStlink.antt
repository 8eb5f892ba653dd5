-- ===== src/LibEspStlink.antt =====
-- libespstlink.c and libespstlink.h: the commands that an ESP-STLINK takes over a serial line, and
-- the checks of its answers. The serial line is a parameter; messages on stderr are left out.
pub mod Answer
pub mod Errors
pub mod Dongle
mod Tests
use stm8flash.Common.{
  ℕ, zero, suc, ◌+◌, ◌-◌, List, [], ◌∷◌, ◌++◌, Option, none, some, Bool, true, false, ltb, ◌==◌,
  if◌then◌else◌, length, take, drop, replicate, u8, ◌<<◌,
}
use Prim.Native.String.{String}
use stm8flash.ByteUtils.{ex, hi, lo}
use stm8flash.Programmer.{Cmd, ok, pure, fault, endless, ◌>>=◌, ◌>>◌}

-- read and write of the serial line: so many bytes at most, or -1 (`none`); what write returns is
-- not looked at.
pub record Serial (S : Type 0) : Type 0 where
  pub read : ℕ → S → Option (List ℕ) × S
  pub write : List ℕ → S → S

-- espstlink_error_t, without the text of the message. `data` is zero behind the bytes of the list.
pub record EspError : Type 0 where
  pub code : ℕ
  pub bytes : List ℕ
  pub data_len : ℕ
  pub device_code : ℕ

-- The state: the line, `error`, and the version in espstlink_t.
pub record Link (S : Type 0) : Type 0 where
  pub line : S
  pub error : EspError
  pub version : ℕ

abbrev pub error_read : ℕ
error_read = 1

abbrev pub error_data : ℕ
error_data = 2

abbrev pub error_comm : ℕ
error_comm = 3

abbrev pub error_version : ℕ
error_version = 4

unfoldable pub command_name : ℕ → String
command_name command =
    if command == 0
    then "SOFT_RESET"
    else if command == 1
    then "READ"
    else if command == 2
    then "WRITE"
    else if command == 0xfd
    then "HARD_RESET"
    else if command == 0xfe
    then "SWIM_ENTRY"
    else if command == 0xff
    then "GET_VERSION"
    else "unknown (invalid)"

unfoldable pub swim_error_name : ℕ → String
swim_error_name code =
    if code == 1
    then "READ_BIT_TIMEOUT"
    else if code == 2
    then "INVALID_TARGET_ID"
    else if code == 3
    then "PARITY"
    else if code == 4
    then "NACK"
    else if code == 5
    then "SYNC_TIMEOUT_1"
    else if code == 6
    then "SYNC_TIMEOUT_2"
    else "unknown (invalid)"

-- What set_error leaves, with the fields that its callers set behind it.
abbrev pub reported : ℕ → List ℕ → ℕ → ℕ → EspError
reported code bytes data_len device_code = record {
  code = code;
  bytes = bytes;
  data_len = data_len;
  device_code = device_code;
}

-- `n + read(...)` where read gives -1 or the number of the bytes, and the bytes.
abbrev pub total_len : ℕ → Option (List ℕ) → ℕ
total_len n none = n - 1
total_len n (some bytes) = n + length bytes

abbrev pub received : Option (List ℕ) → List ℕ
received none = []
received (some bytes) = bytes

module _ {S : Type 0} (serial : Serial S) where
  abbrev pub receive : ℕ → Cmd (Link S) (Option (List ℕ))
  receive size s =
      let (bytes, line) = serial.read size s.line in ok bytes (record s { line = line })

  abbrev pub send : List ℕ → Cmd (Link S) (Unit {0})
  send bytes s = ok tt (record s { line = serial.write bytes s.line })

  abbrev pub fail : EspError → Cmd (Link S) (Option (List ℕ))
  fail error s = ok none (record s { error = error })

  -- The loop that fills resp_buf, which has room for `capacity` bytes: it asks for `size` bytes
  -- each time, and `fault` is a write behind resp_buf. `endless` is the model's: a round reads a
  -- byte at least.
  unfoldable pub fill_loop : ℕ → ℕ → ℕ → List ℕ → Cmd (Link S) (Option (List ℕ))
  fill_loop zero size capacity buf =
      if ltb (length buf) size then (λ _. endless) else pure (some buf)
  fill_loop (suc fuel) size capacity buf =
      let round : Cmd (Link S) (Option (List ℕ)) = do
        answer ← receive size
        let now = buf ++ received answer
        if length (received answer) == 0
            then fail (reported error_data [] 0 0)
            else if ltb capacity (length now)
            then (λ _. fault)
            else fill_loop fuel size capacity now
      in if ltb (length buf) size then round else pure (some buf)

  -- The second byte was 0xFF: the code of the device.
  unfoldable pub read_code : Cmd (Link S) (Option (List ℕ))
  read_code = do answer ← receive 2; code_of (received answer)
    where
      code_of : List ℕ → Cmd (Link S) (Option (List ℕ))
      code_of (high ∷ low ∷ _) = fail (reported error_comm [] 0 ((high << 8) + low))
      code_of _ = fail (reported error_data [] 0 0)

  -- What follows the second byte.
  unfoldable pub check_status : ℕ → ℕ → ℕ → ℕ → Cmd (Link S) (Option (List ℕ))
  unfolding fill_loop read_code
  check_status command status size capacity =
      let unexpected : Cmd (Link S) (Option (List ℕ)) = do
        answer ← receive 254
        fail (reported error_data (command ∷ status ∷ received answer) (total_len 2 answer) 0)
      in if status == 0
        then fill_loop size size capacity []
        else if status == 0xff
        then read_code
        else unexpected

  -- error_check: `none` is the return of 0, and `some` the return of 1 with the bytes in resp_buf.
  -- `size` is 0 where resp_buf is NULL.
  unfoldable pub error_check : ℕ → ℕ → ℕ → Cmd (Link S) (Option (List ℕ))
  unfolding check_status
  error_check command size capacity = do answer ← receive 1; first_of (received answer)
    where
      second_of : List ℕ → Cmd (Link S) (Option (List ℕ))
      second_of [] = fail (reported error_data [] 0 0)
      second_of (status ∷ _) = check_status command status size capacity

      unexpected : ℕ → Cmd (Link S) (Option (List ℕ))
      unexpected b = do
        answer ← receive 255
        fail (reported error_data (b ∷ received answer) (total_len 1 answer) 0)

      expected : Cmd (Link S) (Option (List ℕ))
      expected = do answer ← receive 1; second_of (received answer)

      first_of : List ℕ → Cmd (Link S) (Option (List ℕ))
      first_of [] = fail (reported error_read [] 0 0)
      first_of (b ∷ _) = if b == command then expected else unexpected b

  -- The value of two bytes of an answer, the higher first.
  abbrev word_of : List ℕ → ℕ
  word_of (high ∷ low ∷ _) = (high << 8) + low
  word_of _ = 0

  abbrev pub succeeded : Option (List ℕ) → Bool
  succeeded none = false
  succeeded (some _) = true

  -- A version above 1 is not supported.
  unfoldable pub check_version : Option (List ℕ) → Cmd (Link S) Bool
  check_version none s = ok false s
  check_version (some resp_buf) s =
      let version = word_of resp_buf in
      if ltb 1 version
      then ok false (record s { error = reported error_version [] 0 version })
      else ok true (record s { version = version })

  unfoldable pub espstlink_fetch_version : Cmd (Link S) Bool
  unfolding error_check check_version
  espstlink_fetch_version = do send (0xff ∷ []); answer ← error_check 0xff 2 2; check_version answer

  -- The duration in the answer only decides on a warning.
  unfoldable pub espstlink_swim_entry : Cmd (Link S) Bool
  unfolding error_check
  espstlink_swim_entry = do send (0xfe ∷ []); answer ← error_check 0xfe 2 2; pure (succeeded answer)

  unfoldable pub espstlink_reset : Bool → ℕ → Cmd (Link S) Bool
  unfolding error_check
  espstlink_reset input enable_reset = do
    send (0xfd ∷ (if input then 0xff else enable_reset) ∷ [])
    answer ← error_check 0xfd 0 0
    pure (succeeded answer)

  unfoldable pub espstlink_swim_srst : Cmd (Link S) Bool
  unfolding error_check
  espstlink_swim_srst = do send (0 ∷ []); answer ← error_check 0 0 0; pure (succeeded answer)

  -- memcpy of the bytes behind the length and the address; `fault` where they were not filled in.
  unfoldable pub copy_answer : ℕ → Option (List ℕ) → Cmd (Link S) (Option (List ℕ))
  copy_answer size none = pure none
  copy_answer size (some resp_buf) =
      if ltb (length resp_buf) (size + 4)
      then (λ _. fault)
      else pure (some (take size (drop 4 resp_buf)))

  -- The bytes that are copied to `buffer`, or the return of 0.
  unfoldable pub espstlink_swim_read : ℕ → ℕ → Cmd (Link S) (Option (List ℕ))
  unfolding error_check copy_answer
  espstlink_swim_read addr size = do
    send (1 ∷ u8 size ∷ ex addr ∷ hi addr ∷ lo addr ∷ [])
    answer ← error_check 1 (u8 size + 4) 512
    copy_answer size answer

  unfoldable pub espstlink_swim_write : List ℕ → ℕ → ℕ → Cmd (Link S) Bool
  unfolding error_check
  espstlink_swim_write buffer addr size = do
    send (2 ∷ u8 size ∷ ex addr ∷ hi addr ∷ lo addr ∷ [])
    send (take (u8 size) buffer)
    answer ← error_check 2 4 4
    pure (succeeded answer)
