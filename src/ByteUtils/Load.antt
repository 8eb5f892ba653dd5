-- ===== src/ByteUtils/Load.antt =====
-- load_int of byte_utils.c reads what format_int stored.
use stm8flash.Common.{
  ℕ, zero, suc, ◌+◌, ◌*◌, ◌/◌, ◌^◌, ◌%◌, ◌>>◌, ◌<<◌, ◌<◌, ◌≤◌, ◌≡◌, ◌∙◌, ap, ap₂, List, [], ◌∷◌,
  Option, none, some, arith, bit_or, u32, refl,
}
use stm8flash.ByteUtils.{format_int, load_int, little_endian, big_endian}
use stm8flash.ByteUtils.Or.{bit_or_above, bit_or_below}

-- load_int of what format_int stored in `out`.
abbrev pub reload : List ℕ → ℕ → ℕ → ℕ → Option ℕ
reload out value length endianess =
    elim (format_int out value length endianess) as (λ _. Option ℕ) [
      | none ↦ none
      | some stored ↦ load_int stored length endianess
    ]

u32_below : (n : ℕ) → n < 2 ^ 32 → u32 n ≡ n
u32_below n h = omega arith

-- A round of load_int, with the byte above the bytes that are read or below them.
round_above :
    (k a v byte sum : ℕ)
    → a ≡ v
    → v < 2 ^ k
    → byte * 2 ^ k < 2 ^ 32
    → v + byte * 2 ^ k ≡ sum
    → bit_or a (u32 (byte << k)) ≡ sum
round_above k a v byte sum e h g s = ap₂ bit_or e (u32_below _ g) ∙ bit_or_above k v byte h ∙ s

round_below :
    (j k a v byte sum : ℕ)
    → a ≡ v * 2 ^ j
    → byte * 2 ^ k < 2 ^ j
    → byte * 2 ^ k < 2 ^ 32
    → v * 2 ^ j + byte * 2 ^ k ≡ sum
    → bit_or a (u32 (byte << k)) ≡ sum
round_below j k a v byte sum e h g s =
    ap₂ bit_or e (u32_below _ g) ∙ bit_or_below j (byte * 2 ^ k) v h ∙ s

-- The int behind one to four rounds in little-endian order.
module _ (value : ℕ) where
  abbrev byte : ℕ → ℕ
  byte k = (value >> k) % 256

  little1 : bit_or 0 (u32 (byte 0 << 0)) ≡ value % 2 ^ 8
  little1 =
      round_above 0 _ 0 (byte 0) (value % 2 ^ 8) refl (omega arith) (omega arith) (omega arith)

  little2 : bit_or (bit_or 0 (u32 (byte 0 << 0))) (u32 (byte 8 << 8)) ≡ value % 2 ^ 16
  little2 =
      round_above 8 _ (value % 2 ^ 8) (byte 8) (value % 2 ^ 16) little1 (omega arith) (omega arith)
        (omega arith)

  little3 :
      bit_or (bit_or (bit_or 0 (u32 (byte 0 << 0))) (u32 (byte 8 << 8))) (u32 (byte 16 << 16))
      ≡ value % 2 ^ 24
  little3 =
      round_above 16 _ (value % 2 ^ 16) (byte 16) (value % 2 ^ 24) little2 (omega arith)
        (omega arith) (omega arith)

  little4 :
      bit_or
        (bit_or (bit_or (bit_or 0 (u32 (byte 0 << 0))) (u32 (byte 8 << 8))) (u32 (byte 16 << 16)))
        (u32 (byte 24 << 24))
      ≡ value % 2 ^ 32
  little4 =
      round_above 24 _ (value % 2 ^ 24) (byte 24) (value % 2 ^ 32) little3 (omega arith)
        (omega arith) (omega arith)

  -- A round in big-endian order, behind the bytes above.

  big0 : (a : ℕ) → a ≡ value / 2 ^ 8 * 2 ^ 8 → bit_or a (u32 (byte 0 << 0)) ≡ value / 2 ^ 0 * 2 ^ 0
  big0 a e =
      round_below 8 0 a (value / 2 ^ 8) (byte 0) (value / 2 ^ 0 * 2 ^ 0) e (omega arith)
        (omega arith) (omega arith)

  big8 :
      (a : ℕ) → a ≡ value / 2 ^ 16 * 2 ^ 16 → bit_or a (u32 (byte 8 << 8)) ≡ value / 2 ^ 8 * 2 ^ 8
  big8 a e =
      round_below 16 8 a (value / 2 ^ 16) (byte 8) (value / 2 ^ 8 * 2 ^ 8) e (omega arith)
        (omega arith) (omega arith)

  big16 :
      (a : ℕ)
      → a ≡ value / 2 ^ 24 * 2 ^ 24
      → bit_or a (u32 (byte 16 << 16)) ≡ value / 2 ^ 16 * 2 ^ 16
  big16 a e =
      round_below 24 16 a (value / 2 ^ 24) (byte 16) (value / 2 ^ 16 * 2 ^ 16) e (omega arith)
        (omega arith) (omega arith)

  big24 : value < 2 ^ 32 → bit_or 0 (u32 (byte 24 << 24)) ≡ value / 2 ^ 24 * 2 ^ 24
  big24 h =
      round_above 24 0 0 (byte 24) (value / 2 ^ 24 * 2 ^ 24) refl (omega arith) (omega arith)
        (omega arith)

-- load_int of a length of 4 at most reads from a buffer of four bytes the number that format_int of
-- the same length stored in it, in little-endian and in big-endian order, if the number fits the
-- length.
pub load_int-format_int :
    (a b c d value length : ℕ)
    → length ≤ 4
    → value < 2 ^ (length * 8)
    → (reload (a ∷ b ∷ c ∷ d ∷ []) value length little_endian ≡ some value)
      × (reload (a ∷ b ∷ c ∷ d ∷ []) value length big_endian ≡ some value)
unfolding format_int load_int
load_int-format_int a b c d value zero h g = (ap some (omega arith), ap some (omega arith))
load_int-format_int a b c d value (suc zero) h g =
    (ap some (little1 value ∙ omega arith), ap some (big0 value 0 (omega arith) ∙ omega arith))
load_int-format_int a b c d value (suc (suc zero)) h g = (
  ap some (little2 value ∙ omega arith),
  ap some (big0 value _ (big8 value 0 (omega arith)) ∙ omega arith),
)
load_int-format_int a b c d value (suc (suc (suc zero))) h g = (
  ap some (little3 value ∙ omega arith),
  ap some (big0 value _ (big8 value _ (big16 value 0 (omega arith))) ∙ omega arith),
)
load_int-format_int a b c d value (suc (suc (suc (suc zero)))) h g = (
  ap some (little4 value ∙ omega arith),
  ap some (big0 value _ (big8 value _ (big16 value _ (big24 value (omega arith)))) ∙ omega arith),
)
load_int-format_int a b c d value (suc (suc (suc (suc (suc n))))) h g = absurd (omega arith)
