-- ===== src/Device/Table/Facts.antt =====
-- What holds of every device of the table, and which of them can be asked for.
use stm8flash.Common.{
  ℕ, ◌+◌, ◌%◌, ◌≤◌, ◌≡◌, ◌≢◌, ◌⊎◌, inl, inr, refl, subst, ap, sym, ◌∙◌, true, false, arith, List,
  [], ◌∷◌, ◌++◌,
}
use stm8flash.Common.{Option, get_elem?, some, All, codes, Bool-cases}
use mathlib.Core.Option.{some-injective}
use stm8flash.Device.{Device, Regs, regs_stm8s, regs_stm8l}
use stm8flash.Device.Part.{match_part, get_part}
use stm8flash.Device.Part.Search.{Matches, IsFound, get_part-IsFound, match_part-Matches}
use stm8flash.Device.Table.{stm8_devices}
use stm8flash.Device.Table.Entry.{entry}

-- The registers of the STM8S and STM8A, and of the STM8L, as their reference manuals place them: the
-- flash controller at 0x505a and at 0x5050, of which the STM8L's has no NCR2.
abbrev pub HasStm8sRegs : Regs → Type 0
HasStm8sRegs regs =
    (regs.clk_ckdivr ≡ 0x50c6)
    × (regs.flash_cr2 ≡ 0x505a + 1)
    × (regs.flash_ncr2 ≡ 0x505a + 2)
    × (regs.flash_iapsr ≡ 0x505a + 5)
    × (regs.flash_pukr ≡ 0x505a + 8)
    × (regs.flash_dukr ≡ 0x505a + 10)
    × (regs.flash_dm_csr2 ≡ 0x7f99)

abbrev pub HasStm8lRegs : Regs → Type 0
HasStm8lRegs regs =
    (regs.clk_ckdivr ≡ 0x50c0)
    × (regs.flash_cr2 ≡ 0x5050 + 1)
    × (regs.flash_ncr2 ≡ 0)
    × (regs.flash_pukr ≡ 0x5050 + 2)
    × (regs.flash_dukr ≡ 0x5050 + 3)
    × (regs.flash_iapsr ≡ 0x5050 + 4)
    × (regs.flash_dm_csr2 ≡ 0x7f99)

-- What the programmers take for granted: a block of 64 or 128 bytes, flash that starts at a block
-- and consists of whole blocks, addresses below 0x28000, 128 option bytes at most, and the registers
-- of one of the two families.
pub record IsUsable (d : Device) : Type 0 where
  pub block : (d.flash_block_size ≡ 64) ⊎ (d.flash_block_size ≡ 128)
  pub flash_aligned : d.flash_start % d.flash_block_size ≡ 0
  pub flash_blocks : d.flash_size % d.flash_block_size ≡ 0
  pub flash_end : d.flash_start + d.flash_size ≤ 0x28000
  pub ram_below : d.ram_start + d.ram_size ≤ 8192
  pub options : d.option_bytes_size ≤ 128
  pub eeprom_below : d.eeprom_start + d.eeprom_size ≤ 0x28000
  pub family : HasStm8sRegs d.regs ⊎ HasStm8lRegs d.regs

stm8_devices-IsUsable : All IsUsable stm8_devices
unfolding stm8_devices regs_stm8s regs_stm8l
stm8_devices-IsUsable = omega arith

pub All-middle :
    (P : Device → Type 0) (before : List Device) (d : Device) (after : List Device)
    → All P (before ++ (d ∷ after))
    → P d
All-middle P [] d after h = h.0
All-middle P (b ∷ before) d after h = All-middle P before d after h.1

-- Whatever name is asked for, the device that get_part finds in the table is a usable one: its
-- flash consists of whole blocks of 64 or 128 bytes and starts at one, flash and EEPROM end at
-- 0x28000 at the latest and the RAM at 0x2000, it has 128 option bytes at most, and its seven
-- registers are those of the STM8S or those of the STM8L, at the addresses of their reference
-- manuals.
pub get_part-IsUsable :
    (name : List ℕ) (d : Device) → get_part stm8_devices name ≡ some d → IsUsable d
get_part-IsUsable name d e =
    let (before, after, split, m, missed) = found in
    All-middle IsUsable before d after (subst (All IsUsable) split stm8_devices-IsUsable)
  where
    found : IsFound stm8_devices name (some d)
    found = subst (IsFound stm8_devices name) e (get_part-IsFound stm8_devices name)

Matches-prefix : (p q name : List ℕ) → Matches (p ++ q) name → Matches p name
Matches-prefix [] q name m = Matches.all_read name
Matches-prefix (e ∷ p) q _ (Matches.char {s = s} f m) = Matches.char f (Matches-prefix p q s m)

-- A device with the name `p` stands in front of the first with the name `r`.
abbrev IsGuarded : List ℕ → List ℕ → List Device → Type 0
IsGuarded p r [] = Unit
IsGuarded p r (d ∷ devices) = (d.name ≡ p) ⊎ ((d.name ≢ r) × IsGuarded p r devices)

get_part-hit :
    (x : Device) (devices : List Device) (name : List ℕ)
    → match_part x.name name ≡ true
    → get_part (x ∷ devices) name ≡ some x
unfolding get_part
get_part-hit x devices name h = rw h

get_part-miss :
    (x : Device) (devices : List Device) (name : List ℕ)
    → match_part x.name name ≡ false
    → get_part (x ∷ devices) name ≡ get_part devices name
unfolding get_part
get_part-miss x devices name h = rw h

get_part-Matches :
    (devices : List Device) (name : List ℕ) (d : Device)
    → get_part devices name ≡ some d
    → Matches d.name name
get_part-Matches devices name d e = let (before, after, split, m, missed) = found in m
  where
    found : IsFound devices name (some d)
    found = subst (IsFound devices name) e (get_part-IsFound devices name)

-- A device whose name continues that of an earlier device is never found.
never_found :
    (p q name : List ℕ) (devices : List Device) (d : Device)
    → p ≢ p ++ q
    → IsGuarded p (p ++ q) devices
    → get_part devices name ≡ some d
    → d.name ≢ p ++ q
never_found p q name [] d ne g e = unfold get_part in cc
never_found p q name (x ∷ devices) d ne g e = elim (Bool-cases (match_part x.name name)) [
  | inl hit ↦
      let same : x ≡ d = some-injective x d (sym (get_part-hit x devices name hit) ∙ e) in
      elim g [
        | inl guard ↦ λ r. ne (sym guard ∙ ap (λ (t : Device). t.name) same ∙ r)
        | inr (other, later) ↦ λ r. other (ap (λ (t : Device). t.name) same ∙ r)
      ]
  | inr miss ↦
      let found = sym (get_part-miss x devices name miss) ∙ e in
      elim g [
        | inl guard ↦ λ r.
            let m = subst (λ t. Matches t name) r (get_part-Matches devices name d found) in
            let hit = (match_part-Matches p name).1 (Matches-prefix p q name m) in
            absurd (cc (ap (λ t. match_part t name) guard, miss, hit))
        | inr (other, later) ↦ never_found p q name devices d ne later found
      ]
]

-- What is found is a device of that name.
abbrev pub IsFoundAs : List ℕ → Option Device → Type 0
IsFoundAs name found = (d : Device) × (found ≡ some d) × (d.name ≡ name)

stm8af6223a_missed :
    (name : List ℕ) (d : Device)
    → get_part stm8_devices name ≡ some d
    → d.name ≢ codes "stm8af6223a"
unfolding stm8_devices
stm8af6223a_missed name d e =
    never_found (codes "stm8af6223") (codes "a") name stm8_devices d (λ r. cc)
      (inr (
        λ r. cc,
        inr (λ r. cc, inr (λ r. cc, inr (λ r. cc, inr (λ r. cc, inr (λ r. cc, inl refl))))),
      ))
      e

-- The eighth entry of the table is stm8af6223a; who asks for that name gets stm8af6223, and
-- whatever name is asked for, the device that is found has not the name stm8af6223a.
pub stm8af6223a_shadowed :
    (name : List ℕ) (d : Device)
    → get_part stm8_devices name ≡ some d
    → IsFoundAs (codes "stm8af6223a") (get_elem? stm8_devices 7)
      × IsFoundAs (codes "stm8af6223") (get_part stm8_devices (codes "stm8af6223a"))
      × (d.name ≢ codes "stm8af6223a")
unfolding get_part stm8_devices entry
stm8af6223a_shadowed name d e = ((_, refl, refl), (_, refl, refl), stm8af6223a_missed name d e)
