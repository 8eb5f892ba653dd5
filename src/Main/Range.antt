-- ===== src/Main/Range.antt =====
-- The type of memory and the range that main.c works out before it does anything to a device.
use stm8flash.Common.{ℕ, ◌+◌, ◌-◌, ◌≤◌, ◌<◌, ◌≡◌, ◌≢◌, ◌↔◌, ◌⊎◌, inl, inr, refl, subst}
use stm8flash.Common.{true, false, some, arith, All, List, ltb, leb, ◌&&◌, Bool-cases}
use stm8flash.Device.{Device}
use stm8flash.Device.Table.{stm8_devices}
use stm8flash.Device.Table.Facts.{All-middle}
use stm8flash.Device.Part.{get_part}
use stm8flash.Device.Part.Search.{IsFound, get_part-IsFound}
use stm8flash.Programmer.{MemType, unknown, ram, eeprom, flash, opt}
use stm8flash.Main.{
  Request, memtype_at, in_region, define_memtype, limit_range, define_range, opt_size,
}

-- The addresses that are taken for a type of memory: those of the memory, and for the option bytes
-- those behind them too, which the device does not have. 128 addresses are set aside for them.
abbrev pub TakenFor : Device → MemType → ℕ → Type 0
TakenFor part ram a = (part.ram_start ≤ a) × (a < part.ram_start + part.ram_size)
TakenFor part eeprom a = (part.eeprom_start ≤ a) × (a < part.eeprom_start + part.eeprom_size)
TakenFor part flash a = (part.flash_start ≤ a) × (a < part.flash_start + part.flash_size)
TakenFor part opt a =
    ((0x4800 ≤ a) × (a < 0x4800 + part.option_bytes_size))
    ⊎ ((0x4800 + part.option_bytes_size ≤ a) × (a < 0x4880))
TakenFor part unknown a =
    ¬ ((part.ram_start ≤ a) × (a < part.ram_start + part.ram_size))
    × ¬ ((part.eeprom_start ≤ a) × (a < part.eeprom_start + part.eeprom_size))
    × ¬ ((part.flash_start ≤ a) × (a < part.flash_start + part.flash_size))
    × ¬ ((0x4800 ≤ a) × (a < 0x4880))

-- The memories of a device do not overlap, and the option bytes lie behind the EEPROM.
record HasOrder (d : Device) : Type 0 where
  pub ram_first : d.ram_start + d.ram_size ≤ 0x4800
  pub eeprom_next :
      (d.eeprom_size ≡ 0)
      ⊎ ((d.ram_start + d.ram_size ≤ d.eeprom_start) × (d.eeprom_start + d.eeprom_size ≤ 0x4800))
  pub flash_last : 0x4880 ≤ d.flash_start
  pub options : d.option_bytes_size ≤ 128
  pub below :
      (d.flash_start + d.flash_size < 4294967296) × (d.eeprom_start + d.eeprom_size < 4294967296)

stm8_devices-HasOrder : All HasOrder stm8_devices
unfolding stm8_devices
stm8_devices-HasOrder = omega arith

found-HasOrder : (name : List ℕ) (d : Device) → get_part stm8_devices name ≡ some d → HasOrder d
found-HasOrder name d e =
    let (before, after, split, m, missed) = found in
    All-middle HasOrder before d after (subst (All HasOrder) split stm8_devices-HasOrder)
  where
    found : IsFound stm8_devices name (some d)
    found = subst (IsFound stm8_devices name) e (get_part-IsFound stm8_devices name)

in_region_iff :
    (a start size : ℕ)
    → start + size < 4294967296
    → (in_region a start size ≡ true) ↔ ((start ≤ a) × (a < start + size))
in_region_iff a start size h = ground arith

-- The case that the tests of `memtype_at` come to is the one that the address lies in.
memtype_at-TakenFor : (part : Device) (a : ℕ) → HasOrder part → TakenFor part (memtype_at part a) a
unfolding memtype_at
memtype_at-TakenFor part a order = elim (Bool-cases (in_region a part.ram_start part.ram_size)) [
  | inl e ↦ rw e (rams.0 e)
  | inr no_ram ↦ elim (Bool-cases (in_region a part.flash_start part.flash_size)) [
    | inl e ↦ rw (no_ram, e) (flashes.0 e)
    | inr no_flash ↦ elim (Bool-cases (in_region a part.eeprom_start part.eeprom_size)) [
      | inl e ↦ rw (no_ram, no_flash, e) (eeproms.0 e)
      | inr no_eeprom ↦ elim (Bool-cases (leb 0x4800 a && ltb a 0x4880)) [
        | inl e ↦ rw (no_ram, no_flash, no_eeprom, e) (ground arith)
        | inr e ↦
            rw (no_ram, no_flash, no_eeprom, e)
              (
                λ h. absurd (cc (no_ram, rams.1 h)),
                λ h. absurd (cc (no_eeprom, eeproms.1 h)),
                λ h. absurd (cc (no_flash, flashes.1 h)),
                λ h. ground arith,
              )
      ]
    ]
  ]
]
  where
    rams :
        (in_region a part.ram_start part.ram_size ≡ true)
        ↔ ((part.ram_start ≤ a) × (a < part.ram_start + part.ram_size))
    rams = in_region_iff a part.ram_start part.ram_size (omega (arith, order.ram_first))

    flashes :
        (in_region a part.flash_start part.flash_size ≡ true)
        ↔ ((part.flash_start ≤ a) × (a < part.flash_start + part.flash_size))
    flashes = in_region_iff a part.flash_start part.flash_size order.below.0

    eeproms :
        (in_region a part.eeprom_start part.eeprom_size ≡ true)
        ↔ ((part.eeprom_start ≤ a) × (a < part.eeprom_start + part.eeprom_size))
    eeproms = in_region_iff a part.eeprom_start part.eeprom_size order.below.1

-- No address is taken for two types of memory.
TakenFor-unique :
    (m n : MemType) (part : Device) (a : ℕ)
    → HasOrder part
    → TakenFor part m a
    → TakenFor part n a
    → m ≡ n
TakenFor-unique m n part a order h k = ground arith

-- Whatever device of the table is asked for, an address is taken for RAM, EEPROM or flash if and
-- only if it lies in that memory of the device, for option bytes if and only if it is the address
-- of one that the device has or lies behind them and below 0x4880, and for unknown if and only if
-- it lies in none of the three memories and not from 0x4800 up to 0x4880.
pub define_memtype-TakenFor :
    (name : List ℕ) (part : Device) (r : Request) (m : MemType)
    → get_part stm8_devices name ≡ some part
    → r.memtype ≡ unknown
    → ((define_memtype part r).memtype ≡ m) ↔ TakenFor part m r.start
unfolding define_memtype
define_memtype-TakenFor name part r m found e =
    let order : HasOrder part = found-HasOrder name part found in
    let taken : TakenFor part (memtype_at part r.start) r.start =
      memtype_at-TakenFor part r.start order in
    rw e (
      λ same. subst (λ n. TakenFor part n r.start) same taken,
      λ h. TakenFor-unique (memtype_at part r.start) m part r.start order taken h,
    )

-- The first address of a type of memory, and how many bytes of it are read or written at most.
abbrev pub memory_start : Device → MemType → ℕ
memory_start part ram = part.ram_start
memory_start part eeprom = part.eeprom_start
memory_start part flash = part.flash_start
memory_start part opt = 0x4800
memory_start part unknown = 0

abbrev pub memory_size : Device → MemType → ℕ
memory_size part ram = part.ram_size
memory_size part eeprom = part.eeprom_size
memory_size part flash = part.flash_size
memory_size part opt = opt_size part
memory_size part unknown = 0

define_range-limit_range :
    (part : Device) (r : Request)
    → r.memtype ≢ unknown
    → define_range part r ≡ limit_range (memory_start part r.memtype) (memory_size part r.memtype) r
unfolding define_range
define_range-limit_range part r known = by_type r.memtype refl
  where
    by_type :
        (m : MemType)
        → r.memtype ≡ m
        → define_range part r
          ≡ limit_range (memory_start part r.memtype) (memory_size part r.memtype) r
    by_type unknown e = absurd (known e)
    by_type ram e = rw e refl
    by_type eeprom e = rw e refl
    by_type flash e = rw e refl
    by_type opt e = rw e refl

limit_range-address :
    (start size : ℕ) (r : Request)
    → r.start_addr_specified ≡ true
    → r.bytes_count_specified ≡ false
    → ((limit_range start size r).start ≡ r.start) × ((limit_range start size r).bytes_count ≡ size)
unfolding limit_range
limit_range-address start size r e f = rw (e, f) (refl, refl)

-- If the start is given as an address and no number of bytes, the range begins there and has the
-- size of the whole memory that the start is taken to lie in: it goes past the end of the memory by
-- as many bytes as the start lies behind its first address.
pub define_range-overruns :
    (part : Device) (r : Request)
    → r.memtype ≢ unknown
    → r.start_addr_specified ≡ true
    → r.bytes_count_specified ≡ false
    → memory_start part r.memtype ≤ r.start
    → ((define_range part r).start ≡ r.start)
      × ((define_range part r).bytes_count ≡ memory_size part r.memtype)
      × ((define_range part r).start + (define_range part r).bytes_count
          ≡ (memory_start part r.memtype + memory_size part r.memtype)
            + (r.start - memory_start part r.memtype))
define_range-overruns part r known e f low = rw (define_range-limit_range part r known) (
    let (begins, counts) =
      limit_range-address (memory_start part r.memtype) (memory_size part r.memtype) r e f in
    (begins, counts, omega (arith, begins, counts)))
