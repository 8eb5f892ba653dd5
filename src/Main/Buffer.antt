-- ===== src/Main/Buffer.antt =====
-- The sizes of the buffers of main.c, the option bytes for unlocking, and the serial number.
use stm8flash.Common.{ℕ, zero, suc, ◌+◌, ◌*◌, ◌%◌, ◌≤◌, ◌<◌, ◌≡◌, inl, inr, refl, ap, ap₂, ◌∙◌}
use stm8flash.Common.{List, [], ◌∷◌, arith, take, All, ◌>>◌}
use stm8flash.Stdio.{hex_digit, hex_digits}
use stm8flash.Stdio.Bytes.{IsByte, hex_bytes}
use stm8flash.Device.{Device}
use stm8flash.Device.Table.Facts.{IsUsable}
use stm8flash.Main.{
  align_read, align_write, unlock_byte, unlock_bytes, hex_digit_of, serialno_to_hex,
}

-- The buffer for a device's memory consists of whole blocks of 256 bytes, of as few as hold the
-- bytes that are asked for, which are from 1 to 2147483392.
pub align_read-bounds :
    (n : ℕ)
    → 1 ≤ n
    → n ≤ 2147483392
    → (align_read n % 256 ≡ 0) × (n ≤ align_read n) × (align_read n < n + 256)
unfolding align_read
align_read-bounds n h k = ground arith

-- The buffer that is written to a usable device consists of whole blocks of its flash, of as few as
-- hold the bytes, which are from 1 to 2147483647.
pub align_write-bounds :
    (part : Device) (n : ℕ)
    → IsUsable part
    → 1 ≤ n
    → n ≤ 2147483647
    → (align_write part n % part.flash_block_size ≡ 0)
      × (n ≤ align_write part n)
      × (align_write part n < n + part.flash_block_size)
unfolding align_write
align_write-bounds part n usable h k = elim usable.block [
  | inl e ↦ rw e (ground arith)
  | inr e ↦ rw e (ground arith)
]

-- So many pairs of an option byte 0 and its complement.
abbrev pub option_pairs : ℕ → List ℕ
option_pairs zero = []
option_pairs (suc n) = 0 ∷ 255 ∷ option_pairs n

-- From an odd index on, with as many pairs as are enough.
unlock_bytes-odd :
    (count pairs j : ℕ)
    → count ≤ 2 * pairs
    → unlock_bytes count (2 * j + 1) ≡ take count (option_pairs pairs)
unfolding unlock_bytes
unlock_bytes-odd zero pairs j h = refl
unlock_bytes-odd (suc count) zero j h = absurd (omega arith)
unlock_bytes-odd (suc zero) (suc pairs) j h = ap (λ b. b ∷ []) (ground arith)
unlock_bytes-odd (suc (suc count)) (suc pairs) j h =
    let next : 2 * j + 1 + 1 + 1 ≡ 2 * (j + 1) + 1 = omega arith in
    let option : unlock_byte (2 * j + 1) ≡ 0 = ground arith in
    let complement : unlock_byte (2 * j + 1 + 1) ≡ 255 = ground arith in
    ap₂ (λ b s. b ∷ s) option
      (ap₂ (λ b s. b ∷ s) complement
        (ap (unlock_bytes count) next ∙ unlock_bytes-odd count pairs (j + 1) (omega arith)))

-- The option bytes that unlock an stm8s device are a 0, which takes off the read-out protection,
-- and then pairs of an option byte 0 and its complement 255, cut at the number of bytes; so every
-- byte of them is determined.
pub unlock_bytes-pairs : (count : ℕ) → unlock_bytes count 0 ≡ take count (0 ∷ option_pairs count)
unfolding unlock_bytes
unlock_bytes-pairs zero = refl
unlock_bytes-pairs (suc count) =
    ap (λ s. 0 ∷ s) (unlock_bytes-odd count (suc count) 0 (omega arith))

hex_digit_of-hex_digit : (d : ℕ) → d < 16 → hex_digit_of d ≡ hex_digit d
unfolding hex_digit_of hex_digit
hex_digit_of-hex_digit d h = ground arith

-- The serial number is written as two hexadecimal digits for each byte.
pub serialno_to_hex-hex_bytes :
    (serialno : List ℕ) → All IsByte serialno → serialno_to_hex serialno ≡ hex_bytes serialno
unfolding serialno_to_hex hex_bytes hex_digits
serialno_to_hex-hex_bytes [] h = refl
serialno_to_hex-hex_bytes (b ∷ serialno) h =
    ap₂ (λ x s. x ∷ s) (hex_digit_of-hex_digit ((b >> 4) % 16) (omega arith))
      (ap₂ (λ x s. x ∷ s) (hex_digit_of-hex_digit (b % 16) (omega arith))
        (serialno_to_hex-hex_bytes serialno h.1))
