-- ===== src/StlinkV2/Copy.antt =====
-- The copying of a memory over Intel hex files, tried on two boards behind an ST-LINK V2.
use stm8flash.Common.{Bool, by_if, ℕ, ◌+◌, ◌≤◌, ◌<◌, refl, List, [], true, arith, replicate, ltb}
use stm8flash.Programmer.{flash, block_programmed}
use stm8flash.Programmer.Ends.{Ends}
use stm8flash.Main.{Request, intel_hex, align_read, align_write}
use stm8flash.Main.Action.{read_action, write_action}
use stm8flash.Main.Serves.{Never, Serves}
use stm8flash.Main.Copy.{IsCopied, read_action-write_action}
use stm8flash.StlinkV2.Serves.{stlink2, HasProtected, Resets, stlink2-Serves}
use stm8flash.StlinkV2.Board.{
  Board, board, board_adapter, board-IsStm8, board-Reaches, part, part-HasRegisters, fresh,
}

abbrev request : Request
request = record {
  start = 0x8000;
  memtype = flash;
  start_addr_specified = true;
  bytes_count = 100;
  bytes_count_specified = true;
}

board-Resets : Resets board_adapter board
board-Resets = record { csr_written = λ b s. refl; restarted = λ s. (s, refl, refl) }

write_end : 0x8000 + align_write part 100 ≤ 0x9000
unfolding align_write
write_end = omega arith

read_end : 0x8000 + align_read 100 ≤ 0x9000
unfolding align_read
read_end = omega arith

board-Serves :
    Serves
      (stlink2 board_adapter part 6144)
      (λ (s : Board). s.cells)
      request
      (align_write part 100)
      (HasProtected board 64 0x8000 100)
unfolding block_programmed
board-Serves =
    stlink2-Serves board_adapter board 6144 (board-Reaches 6144 (omega arith)) (omega arith) part
      request board-IsStm8 part-HasRegisters refl (omega arith) (omega arith) board-Resets
      (omega arith) (omega arith) (omega arith) (omega arith) write_end read_end (omega arith)

abbrev cells : Board → ℕ → ℕ
cells s = s.cells

-- A disk that takes every text.
abbrev accepts_all : List ℕ → List ℕ → Bool
accepts_all file text = true

fresh_bytes : (x : ℕ) → fresh.cells x < 256
fresh_bytes x = by_if (λ v. v < 256) (ltb x 0x8040) (λ _. omega arith) (λ _. omega arith)

abbrev other : Board
other = record fresh { cells = λ a. 9 }

request_below : 0x8000 + 100 < 4294967296
request_below = omega arith

count_fits : 100 ≤ align_write part 100
unfolding align_write
count_fits = omega arith

read_action-write_action_example :
    Ends
      (λ file _.
        Ends
          (IsCopied
            (stlink2 board_adapter part 6144)
            part
            cells
            cells
            request
            []
            (replicate 100 3)
            file
            fresh
            other)
          (HasProtected board 64 0x8000 100 other)
          (write_action (stlink2 board_adapter part 6144) part intel_hex request [] file other))
      Never
      (read_action (stlink2 board_adapter part 6144) part accepts_all intel_hex request fresh)
read_action-write_action_example =
    read_action-write_action accepts_all (λ f t. refl) request (omega arith) (omega arith)
      request_below (stlink2 board_adapter part 6144) (stlink2 board_adapter part 6144) part part
      cells cells (align_write part 100) (align_write part 100) (HasProtected board 64 0x8000 100)
      (HasProtected board 64 0x8000 100) board-Serves board-Serves count_fits (omega arith) []
      (replicate 100 3) fresh other fresh_bytes (omega arith)
