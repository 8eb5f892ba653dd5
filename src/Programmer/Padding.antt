-- ===== src/Programmer/Padding.antt =====
-- The whole blocks that a range is rounded up to, and the buffer with its padding.
use stm8flash.Common.{
  ℕ, zero, suc, ◌+◌, ◌-◌, ◌*◌, ◌/◌, ◌%◌, ◌≤◌, ◌<◌, ◌≡◌, refl, sym, ap, ◌∙◌, List, [], ◌∷◌, ◌++◌,
  arith, some, append_assoc,
}
use stm8flash.Common.{
  length as size_of, length-take, length-drop, length-append, take-append_length, take, drop,
  le→ltb_false,
}
use native.Mathlib.Nat.{div-add-mod, mod-lt, div-le_self}
use stm8flash.Programmer.Block.{rounded_size, extend}

pub rounded_size-blocks :
    (length block : ℕ)
    → 1 ≤ length
    → length ≤ 16777216
    → 1 ≤ block
    → block < 65536
    → (k : ℕ) × (rounded_size length block ≡ k * block)
      × (length ≤ k * block)
      × (k * block < length + block)
      × (k ≤ length)
unfolding rounded_size
rounded_size-blocks length block some_byte few some_room small =
    let before : (length + 4294967296 - 1 % 4294967296) % 4294967296 ≡ length - 1 = omega arith in
    let q : ℕ = (length - 1) / block in
    let split = div-add-mod (length - 1) block in
    let rest : (length - 1) % block < block = mod-lt (length - 1) some_room in
    let whole : (q + 1) * block ≡ block * q + block = omega arith in
    let few_blocks : q ≤ length - 1 = div-le_self (length - 1) block in
    (
      q + 1,
      ap (λ n. (n / block + 1) * block % 4294967296) before ∙ omega arith,
      omega arith,
      omega arith,
      omega arith,
    )

-- What the buffer holds behind the memcpy.
abbrev pub padding : List ℕ → List ℕ → ℕ → List ℕ
padding buffer current length =
    take length buffer ++ (drop length current ++ drop (size_of current) buffer)

pub take-take_append :
    (xs rest : List ℕ) (m n : ℕ) → n ≤ m → m ≤ size_of xs → take n (take m xs ++ rest) ≡ take n xs
take-take_append xs rest m zero h k = refl
take-take_append xs rest zero (suc n) h k = absurd (omega arith)
take-take_append [] rest (suc m) (suc n) h k = absurd (omega arith)
take-take_append (x ∷ xs) rest (suc m) (suc n) h k =
    ap (λ t. x ∷ t) (take-take_append xs rest m n (omega arith) (omega arith))

pub take-padding :
    (buffer current : List ℕ) (length : ℕ)
    → length ≤ size_of current
    → size_of current ≤ size_of buffer
    → take (size_of current) (padding buffer current length)
      ≡ take length buffer ++ drop length current
take-padding buffer current length h k =
    let len : size_of (take length buffer ++ drop length current) ≡ size_of current =
      length-append (take length buffer) (drop length current)
      ∙ omega (arith, length-take length buffer, length-drop length current) in
    ap (take (size_of current)) (
      sym (append_assoc (take length buffer) (drop length current) (drop (size_of current) buffer)))
    ∙ take-append_length (take length buffer ++ drop length current) (drop (size_of current) buffer)
        (size_of current) len

pub length-padding :
    (buffer current : List ℕ) (length : ℕ)
    → length ≤ size_of current
    → size_of current ≤ size_of buffer
    → size_of (padding buffer current length) ≡ size_of buffer
length-padding buffer current length h k =
    length-append (take length buffer) (drop length current ++ drop (size_of current) buffer)
    ∙ omega (
      arith,
      length-append (drop length current) (drop (size_of current) buffer),
      length-take length buffer,
      length-drop length current,
      length-drop (size_of current) buffer,
    )

pub extend-padding :
    (buffer current : List ℕ) (length : ℕ)
    → size_of current ≤ size_of buffer
    → extend buffer current length ≡ some (padding buffer current length)
unfolding extend
extend-padding buffer current length h = rw (le→ltb_false (size_of buffer) (size_of current) h) refl
