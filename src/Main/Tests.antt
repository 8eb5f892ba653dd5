-- ===== src/Main/Tests.antt =====
-- Runs of the parts of main.c, and their theorems at concrete inputs.
use stm8flash.Common.{
  ℕ, ◌+◌, ◌-◌, ◌%◌, ◌≤◌, ◌<◌, ◌≡◌, ◌↔◌, List, [], ◌∷◌, ◌++◌, refl, true, false, some, arith, codes,
  take,
}
use stm8flash.Device.{Device, rop_stm8s, regs_stm8s}
use stm8flash.Device.Part.{get_part}
use stm8flash.Device.Table.{stm8_devices}
use stm8flash.Device.Table.Entry.{entry}
use stm8flash.Device.Table.Facts.{get_part-IsUsable}
use stm8flash.Stdio.Bytes.{hex_bytes}
use stm8flash.Main.{unknown, flash, Request, define_memtype, define_range, align_read, align_write}
use stm8flash.Main.{
  memtype_at, strrchr, same_text, unlock_bytes, is_ext, file_format, intel_hex, raw_binary,
  serialno_to_hex,
}
use stm8flash.Main.Range.{TakenFor, define_memtype-TakenFor, define_range-overruns}
use stm8flash.Main.Buffer.{
  align_read-bounds, align_write-bounds, option_pairs, unlock_bytes-pairs,
  serialno_to_hex-hex_bytes,
}
use stm8flash.Main.Name.{is_ext_iff}

abbrev stlux_part : Device
stlux_part = record {
  name = codes "stlux385";
  ram_start = 0;
  ram_size = 2048;
  eeprom_start = 16384;
  eeprom_size = 1024;
  flash_start = 32768;
  flash_size = 32768;
  flash_block_size = 128;
  option_bytes_size = 128;
  read_out_protection_mode = rop_stm8s;
  regs = regs_stm8s;
}

find_stlux : get_part stm8_devices (codes "stlux385") ≡ some stlux_part
unfolding get_part stm8_devices entry
find_stlux = refl

-- `-s 9000`.
abbrev at_9000 : Request
at_9000 = record {
  start = 0x9000;
  memtype = unknown;
  start_addr_specified = true;
  bytes_count = 0;
  bytes_count_specified = false;
}

-- `-s flash -b -1`.
abbrev negative_count : Request
negative_count = record {
  start = 0;
  memtype = flash;
  start_addr_specified = false;
  bytes_count = 4294967295;
  bytes_count_specified = true;
}

define_flash : define_memtype stlux_part at_9000 ≡ record at_9000 { memtype = flash }
unfolding define_memtype memtype_at
define_flash = refl

format_hex : file_format (codes "a.b.hex") ≡ intel_hex
unfolding file_format is_ext strrchr same_text
format_hex = refl

format_other : file_format (codes "hex") ≡ raw_binary
unfolding file_format is_ext strrchr
format_other = refl

define_memtype-TakenFor_example :
    ((define_memtype stlux_part at_9000).memtype ≡ flash) ↔ TakenFor stlux_part flash 0x9000
define_memtype-TakenFor_example =
    define_memtype-TakenFor (codes "stlux385") stlux_part at_9000 flash find_stlux refl

define_range-overruns_example :
    ((define_range stlux_part (record at_9000 { memtype = flash })).start ≡ 0x9000)
    × ((define_range stlux_part (record at_9000 { memtype = flash })).bytes_count ≡ 32768)
    × ((define_range stlux_part (record at_9000 { memtype = flash })).start
          + (define_range stlux_part (record at_9000 { memtype = flash })).bytes_count
        ≡ (32768 + 32768) + (0x9000 - 32768))
define_range-overruns_example =
    define_range-overruns stlux_part (record at_9000 { memtype = flash }) (λ e. cc) refl refl
      (omega arith)

align_read-bounds_example :
    (align_read 8000 % 256 ≡ 0) × (8000 ≤ align_read 8000) × (align_read 8000 < 8256)
align_read-bounds_example = align_read-bounds 8000 (omega arith) (omega arith)

align_write-bounds_example :
    (align_write stlux_part 100 % 128 ≡ 0)
    × (100 ≤ align_write stlux_part 100)
    × (align_write stlux_part 100 < 228)
align_write-bounds_example =
    align_write-bounds stlux_part 100 (get_part-IsUsable (codes "stlux385") stlux_part find_stlux)
      (omega arith) (omega arith)

unlock_bytes-pairs_example : unlock_bytes 4 0 ≡ take 4 (0 ∷ option_pairs 4)
unlock_bytes-pairs_example = unlock_bytes-pairs 4

serialno_to_hex-hex_bytes_example : serialno_to_hex (18 ∷ 255 ∷ []) ≡ hex_bytes (18 ∷ 255 ∷ [])
serialno_to_hex-hex_bytes_example = serialno_to_hex-hex_bytes (18 ∷ 255 ∷ []) (omega arith)

is_ext_iff_example :
    (is_ext (codes "a.b.hex") (codes ".hex") ≡ true)
    ↔ ((base : List ℕ) × (codes "a.b.hex" ≡ base ++ codes ".hex"))
is_ext_iff_example = is_ext_iff (codes "a.b.hex") (codes "hex") (omega arith)
