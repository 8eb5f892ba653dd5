-- ===== src/StlinkV2/Write/Tests.antt =====
-- Runs of stlink2_swim_write_range, and its theorem, on the board.
use stm8flash.Common.{
  ℕ, ◌+◌, ◌*◌, ◌≤◌, ◌<◌, ◌≡◌, refl, List, [], ◌++◌, arith, length, replicate, take,
}
use stm8flash.Common.{true, false}
use stm8flash.Device.{regs_stm8s}
use stm8flash.Programmer.{Run, ok, flash, write_protected, is_opt, block_programmed}
use stm8flash.Programmer.Ends.{Ends}
use stm8flash.Programmer.Memory.{bytes_at, store}
use stm8flash.Programmer.Block.{rounded_size, extend, same_bytes}
use stm8flash.StlinkV2.Write.{stlink2_swim_write_range}
use stm8flash.StlinkV2.Write.Range.{stlink2_swim_write_range-IsWritten}
use stm8flash.StlinkV2.Board.{
  Board, board, board_adapter, board-IsStm8, board-Reaches, part, part-HasRegisters, fresh,
  page_protected,
}

abbrev image : List ℕ
image = replicate 128 7

image_rounded : rounded_size 100 64 ≤ length image
unfolding rounded_size
image_rounded = omega arith

range_end : 0x8000 + rounded_size 100 64 ≤ 0x9000
unfolding rounded_size
range_end = omega arith

abbrev bytes_behind : ℕ → ℕ → Run Board ℕ → List ℕ
bytes_behind a n (ok _ s) = bytes_at s.cells a n
bytes_behind a n _ = []

-- 100 bytes: the rest of the second block stays erased.
written_100 :
    bytes_behind 0x8000 128
      (stlink2_swim_write_range board_adapter part 6144 image 0x8000 100 flash fresh)
    ≡ replicate 100 7 ++ replicate 28 0
unfolding stlink2_swim_write_range regs_stm8s rounded_size is_opt extend same_bytes block_programmed
written_100 = refl

stlink2_swim_write_range-IsWritten_example :
    Ends
      (λ n t.
        (n ≡ 100) × (t.cells ≡ store fresh.cells 0x8000 (take 100 image)) × (t.unlocked ≡ false))
      (λ message t.
        (message ≡ write_protected)
        × (n : ℕ) × (n * 64 < 100)
        × (page_protected (0x8000 + n * 64) ≡ true)
        × (t.cells ≡ store fresh.cells 0x8000 (take (n * 64) image)))
      (stlink2_swim_write_range board_adapter part 6144 image 0x8000 100 flash fresh)
unfolding block_programmed
stlink2_swim_write_range-IsWritten_example =
    stlink2_swim_write_range-IsWritten board_adapter board 6144 (board-Reaches 6144 (omega arith))
      (omega arith) part flash board-IsStm8 part-HasRegisters refl (omega arith) (omega arith) image
      0x8000 100 fresh (omega arith) (omega arith) image_rounded (omega arith) (omega arith)
      range_end (omega arith)
