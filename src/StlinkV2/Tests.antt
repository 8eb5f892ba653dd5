-- ===== src/StlinkV2/Tests.antt =====
-- Runs of the commands and of the reading of stlinkv2.c, and their theorems at concrete inputs.
use stm8flash.Common.{ℕ, ◌-◌, ◌≡◌, refl, List, [], ◌∷◌, ◌++◌, map, some, arith, length, u8}
use stm8flash.StlinkV2.{command}
use stm8flash.Programmer.{stlink_v2}
use stm8flash.StlinkV2.Usb.{Usb, read_status, wait_loop}
use stm8flash.StlinkV2.Wait.{IsWaited, wait_loop-IsWaited}
use stm8flash.Common.{◌+◌, ltb, if◌then◌else◌}
use stm8flash.StlinkV2.Swim.{stlink2_swim_read_range}
use stm8flash.Programmer.{Run, ok, endless}
use stm8flash.Programmer.Ends.{Ends}
use stm8flash.StlinkV2.Board.{Board, board, board_adapter, board-Reaches, board-IsStm8, fresh}
use stm8flash.StlinkV2.Command.{zeros, command-append}
use stm8flash.StlinkV2.Status.{Status}
use stm8flash.StlinkV2.Read.{IsRead, Never, stlink2_swim_read_range-bytes_at}

-- SWIM_READMEM of four bytes at 0x8000.
abbrev read_command : List ℕ
read_command = 0xf4 ∷ 0x0b ∷ 0 ∷ 4 ∷ 0 ∷ 0 ∷ 0x80 ∷ 0 ∷ []

-- The bytes that a run gives.
abbrev bytes_of : Run Board (List ℕ) → List ℕ
bytes_of (ok bytes _) = bytes
bytes_of _ = []

read_in_pieces :
    bytes_of (stlink2_swim_read_range board_adapter 3 0x803c 8 fresh)
    ≡ 1 ∷ 1 ∷ 1 ∷ 1 ∷ 0 ∷ 0 ∷ 0 ∷ 0 ∷ []
unfolding stlink2_swim_read_range
read_in_pieces = refl

read_without_buffer : stlink2_swim_read_range board_adapter 0 0x8000 2 fresh ≡ endless
unfolding stlink2_swim_read_range
read_without_buffer = refl

command_short : command 16 read_command [] ≡ some (read_command ++ zeros 8, [])
unfolding command
command_short = refl

command-append_example :
    (cmd_buf : List ℕ) × (rest : List ℕ) × (command 16 read_command (1 ∷ 2 ∷ [])
      ≡ some (cmd_buf, rest))
    × (length cmd_buf ≡ 16)
    × (cmd_buf ++ rest ≡ map u8 read_command ++ ((1 ∷ 2 ∷ []) ++ zeros (16 - 8 - 2)))
command-append_example = command-append 16 read_command (1 ∷ 2 ∷ []) (omega arith)

stlink2_swim_read_range-bytes_at_example :
    Ends
      (IsRead board 0x803c 8 fresh)
      Never
      (stlink2_swim_read_range board_adapter 3 0x803c 8 fresh)
stlink2_swim_read_range-bytes_at_example =
    stlink2_swim_read_range-bytes_at board_adapter board 3
      (board-Reaches 3 (omega arith)).array_read board-IsStm8.read_kept (omega arith) 0x803c 8 fresh
      (omega arith) (omega arith) (omega arith)

abbrev busy : Status
busy = record { code = 1; second = 0; third = 0; fourth = 0 }

abbrev unset : Status
unset = record { code = 7; second = 7; third = 7; fourth = 7 }

-- An adapter that takes every message, and whose answers are those of a device that is done after
-- two rounds: the state counts the answers that were read.
abbrev slow_status : ℕ → Status
slow_status s = if ltb s 2 then busy else record { code = 0; second = 0; third = 0; fourth = 0 }

abbrev status_bytes : Status → List ℕ
status_bytes s = s.code ∷ s.second ∷ s.third ∷ s.fourth ∷ []

abbrev slow_usb : Usb ℕ
slow_usb = record {
  bulk_out = λ _ buf s. (length buf, s);
  bulk_in = λ _ size s. (status_bytes (slow_status s), s + 1);
}

slow_answered : (s : ℕ) → read_status slow_usb stlink_v2 s ≡ ok (slow_status s) (s + 1)
unfolding read_status
slow_answered s = refl

wait_loop-IsWaited_example :
    IsWaited slow_status (λ s. s + 1) 3 unset 0 (wait_loop slow_usb stlink_v2 3 0 unset unset 0)
wait_loop-IsWaited_example =
    wait_loop-IsWaited slow_usb stlink_v2 slow_status (λ s. s + 1) slow_answered 3 unset unset 0
