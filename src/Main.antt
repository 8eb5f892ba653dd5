-- ===== src/Main.antt =====
-- main.c: the choice of the memory and of the range of addresses, the sizes of the buffers, the
-- format of the file by its name, and the option bytes that unlock a device.
pub mod Range
pub mod Buffer
pub mod Name
pub mod Action
pub mod Serves
pub mod Copy
mod Tests
use stm8flash.Common.{
  ℕ, zero, suc, ◌+◌, ◌-◌, ◌*◌, ◌/◌, ◌%◌, List, [], ◌∷◌, ◌++◌, Option, none, some,
}
use stm8flash.Common.{
  Bool, true, false, not, ◌&&◌, ◌||◌, ltb, leb, ◌==◌, if◌then◌else◌, u32, sub32, ◌>>◌, codes,
}
use stm8flash.Device.{Device}
use stm8flash.Programmer.{MemType, unknown, ram, eeprom, flash, opt}

-- The variables that the options set: `-s` sets memtype or the start, `-b` the number of bytes, as
-- the bit pattern of an int.
pub record Request : Type 0 where
  pub start : ℕ
  pub memtype : MemType
  pub start_addr_specified : Bool
  pub bytes_count : ℕ
  pub bytes_count_specified : Bool

-- `start >= from && start < from + size`.
abbrev pub in_region : ℕ → ℕ → ℕ → Bool
in_region start from size = leb from start && ltb start (u32 (from + size))

-- The type of memory that an address lies in.
unfoldable pub memtype_at : Device → ℕ → MemType
memtype_at part start =
    let option_bytes = if leb 0x4800 start && ltb start 0x4880 then opt else unknown in
    if in_region start part.ram_start part.ram_size
    then ram
    else if in_region start part.flash_start part.flash_size
    then flash
    else if in_region start part.eeprom_start part.eeprom_size
    then eeprom
    else option_bytes

-- The type of memory, where the start was given as an address.
unfoldable pub define_memtype : Device → Request → Request
define_memtype part r = elim r.memtype [
  | unknown ↦ record r { memtype = memtype_at part r.start }
  | _ ↦ r
]

-- One case of the switch: the default start and the default or greatest number of bytes.
unfoldable pub limit_range : ℕ → ℕ → Request → Request
limit_range start size r = record r {
  start = if not r.start_addr_specified then start else r.start;
  start_addr_specified = true;
  bytes_count =
      if not r.bytes_count_specified || ltb size r.bytes_count then size else r.bytes_count;
}

-- The number of option bytes that the switch goes by.
unfoldable pub opt_size : Device → ℕ
opt_size part = if leb part.flash_size (8 * 1024) then 0x40 else 0x80

-- The switch over the type of memory.
unfoldable pub define_range : Device → Request → Request
define_range part r = elim r.memtype [
  | ram ↦ limit_range part.ram_start part.ram_size r
  | eeprom ↦ limit_range part.eeprom_start part.eeprom_size r
  | flash ↦ limit_range part.flash_start part.flash_size r
  | opt ↦ limit_range 0x4800 (opt_size part) r
  | unknown ↦ r
]

-- `((bytes_count-1)/256+1)*256` in int: a negative quotient is rounded towards zero.
unfoldable pub align_read : ℕ → ℕ
align_read bytes_count =
    if ltb bytes_count 2147483648
    then u32 (((bytes_count - 1) / 256 + 1) * 256)
    else sub32 256 ((4294967296 - bytes_count + 1) / 256 * 256)

-- `((bytes_count-1)/flash_block_size+1)*flash_block_size` in unsigned int.
unfoldable pub align_write : Device → ℕ → ℕ
align_write part bytes_count =
    u32 ((sub32 bytes_count 1 / part.flash_block_size + 1) * part.flash_block_size)

abbrev pub unlock_byte : ℕ → ℕ
unlock_byte i = if ltb 0 i && i % 2 == 0 then 255 else 0

-- The option bytes from index `i` on that take off the read-out protection of an stm8s device.
unfoldable pub unlock_bytes : ℕ → ℕ → List ℕ
unlock_bytes zero i = []
unlock_bytes (suc count) i = unlock_byte i ∷ unlock_bytes count (i + 1)

-- strrchr: the text from the last `c` on.
unfoldable pub strrchr : List ℕ → ℕ → Option (List ℕ)
strrchr [] c = none
strrchr (x ∷ s) c = elim (strrchr s c) [
  | some t ↦ some t
  | none ↦ if x == c then some (x ∷ s) else none
]

-- strcmp(s, t) == 0.
unfoldable pub same_text : List ℕ → List ℕ → Bool
same_text [] [] = true
same_text [] (y ∷ t) = false
same_text (x ∷ s) [] = false
same_text (x ∷ s) (y ∷ t) = x == y && same_text s t

unfoldable pub is_ext : List ℕ → List ℕ → Bool
is_ext filename ext = elim (strrchr filename b'.') [
  | none ↦ false
  | some ext_begin ↦ same_text ext_begin ext
]

-- fileformat_t.
pub data FileFormat : Type 0 where
  intel_hex motorola_s_record raw_binary : FileFormat

unfoldable pub file_format : List ℕ → FileFormat
file_format filename =
    if is_ext filename (codes ".ihx")
      || (is_ext filename (codes ".hex") || is_ext filename (codes ".i86"))
    then intel_hex
    else if is_ext filename (codes ".s19")
        || (is_ext filename (codes ".s8") || is_ext filename (codes ".srec"))
    then motorola_s_record
    else raw_binary

-- The digits of the table `lk`.
unfoldable pub hex_digit_of : ℕ → ℕ
hex_digit_of d = if ltb d 10 then b'0' + d else b'A' + (d - 10)

-- Two digits for each byte of the serial number.
unfoldable pub serialno_to_hex : List ℕ → List ℕ
serialno_to_hex [] = []
serialno_to_hex (b ∷ serialno) =
    hex_digit_of ((b >> 4) % 16) ∷ hex_digit_of (b % 16) ∷ serialno_to_hex serialno
