-- ===== src/Programmer/Block.antt =====
-- What stlinkv2.c and espstlink.c compute alike before they write whole blocks.
use stm8flash.Common.{
  ℕ, ◌+◌, ◌*◌, ◌/◌, List, [], ◌∷◌, ◌++◌, Option, none, some, Bool, true, false, ◌&&◌, ltb, ◌==◌,
  if◌then◌else◌,
}
use stm8flash.Common.{◌≡◌, refl, ap₂, ◌⊎◌, inl, inr, Bool-cases, arith, replicate}
use stm8flash.Common.{u32, sub32, length as size, take, drop}

-- rounded_size: `((length - 1) / block + 1) * block` on unsigned ints.
unfoldable pub rounded_size : ℕ → ℕ → ℕ
rounded_size length block = u32 ((sub32 length 1 / block + 1) * block)

-- `!memcmp` of two lists of one length.
unfoldable pub same_bytes : List ℕ → List ℕ → Bool
same_bytes [] [] = true
same_bytes (a ∷ xs) (b ∷ ys) = a == b && same_bytes xs ys
same_bytes _ _ = false

-- memcpy of what is behind `length` in `current` to the same place of the buffer. `none`: the
-- buffer is shorter than `current`.
unfoldable pub extend : List ℕ → List ℕ → ℕ → Option (List ℕ)
extend buffer current length =
    if ltb (size buffer) (size current)
    then none
    else some (take length buffer ++ (drop length current ++ drop (size current) buffer))

-- The loop that looks for a byte that is not zero.
unfoldable pub prgmode_of : List ℕ → ℕ
prgmode_of [] = 0x10
prgmode_of (b ∷ current) = if b == 0 then prgmode_of current else 0x01

-- The fast mode is chosen for a block of zeros only.
pub prgmode_of-cases :
    (current : List ℕ)
    → (prgmode_of current ≡ 0x01)
      ⊎ ((prgmode_of current ≡ 0x10) × (current ≡ replicate (size current) 0))
unfolding prgmode_of
prgmode_of-cases [] = inr (refl, refl)
prgmode_of-cases (b ∷ current) = elim (Bool-cases (b == 0)) [
  | inr other ↦ inl (rw other refl)
  | inl none_set ↦
      let zero_byte : b ≡ 0 = ground arith in
      elim (prgmode_of-cases current) [
        | inl standard ↦ inl (rw none_set standard)
        | inr (fast, zeros) ↦ inr (rw none_set fast, ap₂ (λ c s. c ∷ s) zero_byte zeros)
      ]
]

pub same_bytes-≡ : (xs ys : List ℕ) → same_bytes xs ys ≡ true → xs ≡ ys
unfolding same_bytes
same_bytes-≡ [] [] h = refl
same_bytes-≡ [] (b ∷ ys) h = absurd (ground arith)
same_bytes-≡ (a ∷ xs) [] h = absurd (ground arith)
same_bytes-≡ (a ∷ xs) (b ∷ ys) h =
    let e : a ≡ b = ground arith in
    let t : same_bytes xs ys ≡ true = ground arith in ap₂ (λ c s. c ∷ s) e (same_bytes-≡ xs ys t)
