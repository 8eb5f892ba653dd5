-- ===== src/Device/Part.antt =====
-- main.c: get_part, the search for a device by a name in which `?` stands for any character.
pub mod Search
use mathlib.Core.List.{Forall₂}
use stm8flash.Common.{ℕ, ◌-◌, ◌≡◌, ◌↔◌, List, [], ◌∷◌, ◌++◌, Option, none, some, Bool, true, false}
use stm8flash.Common.{◌&&◌, ◌||◌, leb, ◌==◌, if◌then◌else◌}
use stm8flash.Device.{Device}

unfoldable pub toupper : ℕ → ℕ
toupper c = if leb 97 c && leb c 122 then c - 32 else c

-- The walk along a device's name and the name that is asked for, and the test behind it that the
-- end of the device's name is reached.
unfoldable pub match_part : List ℕ → List ℕ → Bool
unfolding toupper
match_part [] s = true
match_part (e ∷ es) [] = false
match_part (e ∷ es) (c ∷ s) =
    if e == c || (toupper e == c || e == b'?') then match_part es s else false

unfoldable pub get_part : List Device → List ℕ → Option Device
unfolding match_part
get_part [] name = none
get_part (d ∷ devices) name = if match_part d.name name then some d else get_part devices name
