-- ===== src/StlinkV2.antt =====
-- stlinkv2.c: the commands that an ST-LINK V2 takes over USB. What they do, the reading and the
-- writing of memory by them, and the transfers below them are the modules of this one.
pub mod Command
pub mod Status
pub mod Stalls
pub mod Usb
pub mod Wait
pub mod Swim
pub mod Link
pub mod Read
pub mod Write
pub mod Serves
mod Board
mod Copy
mod Tests
use stm8flash.Common.{ℕ, zero, suc, List, [], ◌∷◌, Option, none, some, u8}
use stm8flash.Programmer.{Cmd}

-- The loop that fills the rest of cmd_buf with data, `room` bytes of it, over the zeros of memset;
-- and the data that are left.
unfoldable pub fill_data : ℕ → List ℕ → List ℕ × List ℕ
fill_data zero buf = ([], buf)
fill_data (suc room) [] = let (bytes, rest) = fill_data room [] in (0 ∷ bytes, rest)
fill_data (suc room) (d ∷ buf) = let (bytes, rest) = fill_data room buf in (d ∷ bytes, rest)

abbrev prepend : ℕ → Option (List ℕ × List ℕ) → Option (List ℕ × List ℕ)
prepend b none = none
prepend b (some (bytes, rest)) = some (b ∷ bytes, rest)

-- stlink2_cmd_internal: the bytes of cmd_buf, of which `room` are still free, and the data that are
-- sent behind it in a message of their own. `none` is a write behind cmd_buf.
unfoldable pub command : ℕ → List ℕ → List ℕ → Option (List ℕ × List ℕ)
unfolding fill_data
command room [] buf = some (fill_data room buf)
command zero (a ∷ args) buf = none
command (suc room) (a ∷ args) buf = prepend (u8 a) (command room args buf)

-- What the functions above stlink2_cmd and swim_cmd use: a command by its arguments, a SWIM command
-- by its arguments and its data, behind which the adapter has carried it out, and so many bytes of
-- an answer. `Usb` implements it.
pub record Adapter (S : Type 0) : Type 0 where
  pub stlink2_cmd : List ℕ → Cmd S (Unit {0})
  pub swim_cmd_with_data : List ℕ → List ℕ → Cmd S (Unit {0})
  pub msg_recv : ℕ → Cmd S (List ℕ)
