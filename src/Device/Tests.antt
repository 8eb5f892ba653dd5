-- ===== src/Device/Tests.antt =====
-- Searches of the table of stm8.c by get_part of main.c, and the theorems at concrete names.
use stm8flash.Common.{[], ◌∷◌, ◌≡◌, ◌≢◌, ◌↔◌, refl, true, some, none, codes, get_elem?}
use stm8flash.Device.{Device, rop_stm8s, regs_stm8s}
use stm8flash.Device.Table.{stm8_devices}
use stm8flash.Device.Table.Entry.{entry}
use stm8flash.Device.Part.{match_part, get_part}
use stm8flash.Device.Part.Search.{Matches, IsFound, match_part-Matches, get_part-IsFound}
use stm8flash.Device.Table.Facts.{IsUsable, IsFoundAs, get_part-IsUsable, stm8af6223a_shadowed}

abbrev small_part : Device
small_part = record {
  name = codes "stm8s003?3";
  ram_start = 0;
  ram_size = 1024;
  eeprom_start = 16384;
  eeprom_size = 128;
  flash_start = 32768;
  flash_size = 8192;
  flash_block_size = 64;
  option_bytes_size = 64;
  read_out_protection_mode = rop_stm8s;
  regs = regs_stm8s;
}

abbrev other_part : Device
other_part = record small_part { name = codes "stm8l" }

find_upper_case : get_part (other_part ∷ small_part ∷ []) (codes "STM8S003F3P6") ≡ some small_part
unfolding get_part
find_upper_case = refl

find_nothing : get_part stm8_devices (codes "stm9") ≡ none
unfolding get_part stm8_devices
find_nothing = refl

match_part-Matches_example :
    (match_part (codes "stm8s003?3") (codes "stm8s003k3") ≡ true)
    ↔ Matches (codes "stm8s003?3") (codes "stm8s003k3")
match_part-Matches_example = match_part-Matches (codes "stm8s003?3") (codes "stm8s003k3")

get_part-IsFound_example :
    IsFound
      (other_part ∷ small_part ∷ [])
      (codes "stm8s003k3")
      (get_part (other_part ∷ small_part ∷ []) (codes "stm8s003k3"))
get_part-IsFound_example = get_part-IsFound (other_part ∷ small_part ∷ []) (codes "stm8s003k3")

abbrev stlux_part : Device
stlux_part = record {
  name = codes "stlux385";
  ram_start = 0;
  ram_size = 2048;
  eeprom_start = 16384;
  eeprom_size = 1024;
  flash_start = 32768;
  flash_size = 32768;
  flash_block_size = 128;
  option_bytes_size = 128;
  read_out_protection_mode = rop_stm8s;
  regs = regs_stm8s;
}

find_stlux : get_part stm8_devices (codes "STLUX385A") ≡ some stlux_part
unfolding get_part stm8_devices entry
find_stlux = refl

get_part-IsUsable_example : IsUsable stlux_part
get_part-IsUsable_example = get_part-IsUsable (codes "STLUX385A") stlux_part find_stlux

stm8af6223a_shadowed_example :
    IsFoundAs (codes "stm8af6223a") (get_elem? stm8_devices 7)
    × IsFoundAs (codes "stm8af6223") (get_part stm8_devices (codes "stm8af6223a"))
    × (stlux_part.name ≢ codes "stm8af6223a")
stm8af6223a_shadowed_example = stm8af6223a_shadowed (codes "STLUX385A") stlux_part find_stlux
