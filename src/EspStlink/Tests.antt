-- ===== src/EspStlink/Tests.antt =====
-- Runs of espstlink.c, and its theorems at concrete inputs.
use stm8flash.Common.{ℕ, ◌+◌, ◌≡◌, refl, ap, [], ◌∷◌, arith, ◌<<◌}
use stm8flash.ByteUtils.{ex, hi, lo}
use stm8flash.Programmer.Ends.{Ends}
use stm8flash.Programmer.Memory.{bytes_at}
use stm8flash.LibEspStlink.Answer.{Never}
use stm8flash.LibEspStlink.Dongle.{Dongle, dongle, waiting, dongle-Delivers, link}
use stm8flash.EspStlink.{espstlink_swim_read_range}
use stm8flash.EspStlink.Read.{Answers, IsRead, espstlink_swim_read_range-IsRead}

abbrev cells : Dongle → ℕ → ℕ
cells s = s.cells

dongle-Answers : Answers dongle waiting cells
dongle-Answers = record {
  read_answered = λ a n s some_bytes few below quiet.
      let place : (ex a << 16) + (hi a << 8) + lo a ≡ a = omega arith in
      ap (λ b. 1 ∷ 0 ∷ n ∷ ex a ∷ hi a ∷ lo a ∷ bytes_at s.cells b n) place;
  command_kept = λ a n s. refl;
  read_kept = λ n s. refl;
}

espstlink_swim_read_range-IsRead_example :
    Ends
      (IsRead waiting cells 0x8000 300 (link []))
      Never
      (espstlink_swim_read_range dongle 0x8000 300 (link []))
espstlink_swim_read_range-IsRead_example =
    espstlink_swim_read_range-IsRead dongle waiting cells dongle-Delivers dongle-Answers 0x8000 300
      (link []) (omega arith) refl
