-- ===== src/StlinkV2/Board.antt =====
-- A board on which the theorems of stlinkv2.c are tried: a chip of the STM8S family behind an
-- adapter, which behave as the theorems suppose.
use stm8flash.Common.{
  ℕ, ◌+◌, ◌≤◌, ◌<◌, ◌≡◌, refl, ap, ap₂, ◌∙◌, List, [], ◌∷◌, ◌++◌, arith, map, u8, length, ◌<<◌,
  codes,
}
use stm8flash.Common.{Bool, true, false, ◌==◌, if◌then◌else◌, Bool-cases, ltb, inl, inr}
use stm8flash.ByteUtils.{eh, ex, hi, lo}
use stm8flash.Device.{Device, regs_stm8s, rop_stm8s}
use stm8flash.Programmer.{Cmd, ok, flash}
use stm8flash.Programmer.Memory.{bytes_at, store}
use stm8flash.Programmer.Chip.{Chip, Kept, IsStm8}
use stm8flash.StlinkV2.{Adapter}
use stm8flash.StlinkV2.Swim.{read_memory, swim_cmd}
use stm8flash.StlinkV2.Link.{Reaches}
use stm8flash.StlinkV2.Write.Steps.{HasRegisters}

-- The state: the memory, what was accepted, the registers, and the answer that waits.
pub record Board : Type 0 where
  pub cells : ℕ → ℕ
  pub keyed : Bool
  pub unlocked : Bool
  pub cr2 : ℕ
  pub ncr2 : ℕ
  pub refused : Bool
  pub answer : List ℕ

abbrev pub page_protected : ℕ → Bool
page_protected a = a == 0x8080

abbrev pub register_written : ℕ → ℕ → Board → Board
register_written a b s =
    if a == 0x5062
    then (if b == 0x56 then record s { keyed = true } else record s { unlocked = s.keyed })
    else if a == 0x505b
    then record s { cr2 = b }
    else if a == 0x505c
    then record s { ncr2 = b }
    else if a == 0x505f
    then record s { unlocked = false }
    else s

abbrev pub block_written : ℕ → List ℕ → Board → Board
block_written a bytes s =
    if page_protected a
    then record s { refused = true }
    else record s { cells = store s.cells a bytes; refused = false }

abbrev pub first : List ℕ → ℕ
first [] = 0
first (b ∷ _) = b

abbrev pub board_written : ℕ → List ℕ → Board → Board
board_written a bytes s =
    if length bytes == 64 then block_written a bytes s else register_written a (first bytes) s

abbrev pub board_register : ℕ → Board → ℕ
board_register a s = if a == 0x505f then (if s.refused then 1 else 4) else s.cells a

abbrev pub board : Chip Board
board = record {
  write_at = board_written;
  register_at = board_register;
  after_read = λ _ s. record s { answer = [] };
  memory = λ s. s.cells;
  keyed = λ s. s.keyed;
  unlocked = λ s. s.unlocked;
  cr2 = λ s. s.cr2;
  ncr2 = λ s. s.ncr2;
  refused = λ s. s.refused;
  is_protected = page_protected;
  array_start = 0x8000;
  array_end = 0x9000;
}

abbrev pub same : (s t : Board) → t.cells ≡ s.cells → t.unlocked ≡ s.unlocked → Kept board s t
same s t h k = record { memory = h; unlocked = k }

pub board-IsStm8 : IsStm8 board regs_stm8s 64 flash
unfolding regs_stm8s
board-IsStm8 = record {
  clock_kept = λ b s. same s _ refl refl;
  stall_kept = λ b s. same s _ refl refl;
  read_kept = λ a s. same s _ refl refl;
  key_accepted = λ s t e. (ap (λ (u : Board). u.cells) e, ap (λ (u : Board). u.keyed) e);
  key_completed = λ s t e k. (ap (λ (u : Board). u.cells) e, ap (λ (u : Board). u.unlocked) e ∙ k);
  cr2_written = λ b s. (same s _ refl refl, refl);
  ncr2_written = λ b s t e present. (
    same s t (ap (λ (u : Board). u.cells) e) (ap (λ (u : Board). u.unlocked) e),
    ap (λ (u : Board). u.cr2) e,
    ap (λ (u : Board). u.ncr2) e,
  );
  block_stored = λ a bytes s t e len aligned ready free.
      let whole : (length bytes == 64) ≡ true = ground arith in
      let result : t ≡ record s { cells = store s.cells a bytes; refused = false } =
        e ∙ rw (whole, free) refl in
      (
        ap (λ (u : Board). u.cells) result,
        ap (λ (u : Board). u.unlocked) result ∙ ready.0,
        ap (λ (u : Board). u.refused) result,
      );
  block_refused = λ a bytes s t e len aligned ready protected.
      let whole : (length bytes == 64) ≡ true = ground arith in
      let result : t ≡ record s { refused = true } = e ∙ rw (whole, protected) refl in
      (ap (λ (u : Board). u.cells) result, ap (λ (u : Board). u.refused) result);
  status_refused = λ s h. rw h (refl, refl);
  status_stored = λ s h. (rw h refl, h);
  locked = λ b s t e pul dul. (ap (λ (u : Board). u.cells) e, ap (λ (u : Board). u.unlocked) e);
}

-- An adapter in front of the board: SWIM_WRITEMEM, and SWIM_READMEM, whose answer waits for
-- msg_recv.
abbrev pub address : ℕ → ℕ → ℕ → ℕ → ℕ
address e x h l = (e << 24) + (x << 16) + (h << 8) + l

abbrev pub board_answer : ℕ → ℕ → Board → List ℕ
board_answer n a s = if n == 1 then board_register a s ∷ [] else bytes_at s.cells a n

abbrev pub board_command : List ℕ → List ℕ → Cmd Board (Unit {0})
board_command (f ∷ c ∷ n1 ∷ n0 ∷ e ∷ x ∷ h ∷ l ∷ args) bytes s =
    if c == 0x0a
    then ok tt (board_written (address e x h l) (map u8 args ++ bytes) s)
    else ok tt (record s { answer = board_answer ((n1 << 8) + n0) (address e x h l) s })
board_command _ _ s = ok tt s

abbrev pub board_adapter : Adapter Board
board_adapter = record {
  stlink2_cmd = λ _ s. ok tt s;
  swim_cmd_with_data = board_command;
  msg_recv = λ _ s. ok s.answer (record s { answer = [] });
}

address-split : (a : ℕ) → a < 4294967296 → address (eh a) (ex a) (hi a) (lo a) ≡ a
address-split a h = omega arith

board_read :
    (n a : ℕ) (s : Board)
    → a < 16777216
    → n < 65536
    → read_memory board_adapter n a s ≡ ok (board_answer n a s) (record s { answer = [] })
unfolding read_memory swim_cmd
board_read n a s h k =
    let place : address 0 (ex a) (hi a) (lo a) ≡ a = omega arith in
    let count : (hi n << 8) + lo n ≡ n = omega arith in
    ap₂ (λ m b. ok (board_answer m b s) (record s { answer = [] })) count place

pub board-Reaches :
    (read_buf_size : ℕ) → read_buf_size < 65536 → Reaches board_adapter board read_buf_size
board-Reaches read_buf_size small = record {
  written = λ a args bytes s below few.
      ap (λ b. ok tt (board_written b (map u8 args ++ bytes) s)) (address-split a below);
  one_read = λ a s below. board_read 1 a s below (omega arith);
  array_read = λ a n s some few from to.
      board_read n a s (omega arith) (omega arith)
      ∙ ap (λ b. ok b (record s { answer = [] })) (answered n a s from);
}
  where
    answered : (n a : ℕ) (s : Board) → 0x8000 ≤ a → board_answer n a s ≡ bytes_at s.cells a n
    answered n a s from = elim (Bool-cases (n == 1)) [
      | inr more ↦ rw more refl
      | inl one ↦
          let single : 1 ≡ n = ground arith in
          let no_register : (a == 0x505f) ≡ false = ground arith in
          rw (one, no_register) (ap (bytes_at s.cells a) single)
    ]

abbrev pub part : Device
part = record {
  name = codes "STM8S003F3";
  ram_start = 0;
  ram_size = 1024;
  eeprom_start = 0x4000;
  eeprom_size = 128;
  flash_start = 0x8000;
  flash_size = 8192;
  flash_block_size = 64;
  option_bytes_size = 64;
  read_out_protection_mode = rop_stm8s;
  regs = regs_stm8s;
}

-- A board whose first block holds ones and whose other blocks are erased.
abbrev pub fresh : Board
fresh = record {
  cells = λ a. if ltb a 0x8040 then 1 else 0;
  keyed = false;
  unlocked = false;
  cr2 = 0;
  ncr2 = 0;
  refused = false;
  answer = [];
}

pub part-HasRegisters : HasRegisters regs_stm8s
unfolding regs_stm8s
part-HasRegisters = omega arith
