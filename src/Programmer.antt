-- ===== src/Programmer.antt =====
-- pgm.h, error.h and try.h: what the modules of the programmers share. A function of a programmer
-- runs on the state of the adapter and the chip behind it, which is a parameter.
pub mod Ends
pub mod Memory
pub mod Chip
pub mod Block
pub mod Padding
use stm8flash.Common.{ℕ, zero, suc, Option, none, some, List, Bool, true, false, if◌then◌else◌}

-- memtype_t.
pub data MemType : Type 0 where
  unknown ram eeprom flash opt : MemType

-- `memtype == FLASH || memtype == EEPROM`, and `memtype == OPT`.
unfoldable pub block_programmed : MemType → Bool
block_programmed flash = true
block_programmed eeprom = true
block_programmed _ = false

unfoldable pub is_opt : MemType → Bool
is_opt opt = true
is_opt _ = false

-- programmer_type_t.
pub data ProgrammerType : Type 0 where
  stlink_v1 stlink_v2 stlink_v21 stlink_v3 esp_stlink : ProgrammerType

-- What ERROR, ERROR2, spawn_error and assert print before they leave the program.
pub data Message : Type 0 where
  tries_exceeded write_protected : Message
  read_failed file_failed not_verified no_unlocking_mode assertion_failed : Message
  io_error : ℕ → ℕ → Message
  swim_error : ℕ → Message

-- A result with the state behind it, the end of the program, an access outside of an array, or a
-- loop that does not end.
pub data Run (S A : Type 0) : Type 0 where
  ok : A → S → Run S A
  exited : Message → S → Run S A
  fault endless : Run S A

abbrev pub Cmd : Type 0 → Type 0 → Type 0
Cmd S A = S → Run S A

module _ {S A : Type 0} where
  abbrev pub pure : A → Cmd S A
  pure = ok

  abbrev pub exit : Message → Cmd S A
  exit = exited

  abbrev pub or_fault : Option A → Cmd S A
  or_fault (some a) = pure a
  or_fault none = λ _. fault

module _ {S A B : Type 0} where
  abbrev pub and_then : Run S A → (A → Cmd S B) → Run S B
  and_then (ok a s) k = k a s
  and_then (exited message s) k = exited message s
  and_then fault k = fault
  and_then endless k = endless

  infixl 5 ◌>>=◌ ◌>>◌
  abbrev pub ◌>>=◌ : Cmd S A → (A → Cmd S B) → Cmd S B
  m >>= k = λ s. and_then (m s) k

  abbrev pub ◌>>◌ : Cmd S A → Cmd S B → Cmd S B
  m >> n = m >>= λ _. n

module _ {S : Type 0} where
  -- TRY: the statement, up to so many times, until it holds.
  unfoldable pub try : ℕ → Cmd S Bool → Cmd S (Unit {0})
  try zero statement = exit tries_exceeded
  try (suc c) statement = statement >>= λ done. if done then pure tt else try c statement

-- programmer_s: what main calls. The bytes that read_range stores in its buffer stand for the number
-- that it returns; a programmer may lack reset.
pub record Programmer (S : Type 0) : Type 0 where
  pub reset : Option (Cmd S (Unit {0}))
  pub close : Cmd S (Unit {0})
  pub read_range : ℕ → ℕ → Cmd S (List ℕ)
  pub write_range : List ℕ → ℕ → ℕ → MemType → Cmd S ℕ
