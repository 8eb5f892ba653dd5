-- ===== src/Programmer/Memory.antt =====
-- The bytes of a memory from an address on, and the memory after a list of bytes was stored there.
use stm8flash.Common.{
  ℕ, zero, suc, ◌+◌, ◌-◌, ◌≤◌, ◌<◌, ◌≡◌, refl, sym, ap, ap₂, ◌∙◌, List, [], ◌∷◌, ◌++◌, arith, take,
  drop, length, ◌==◌, if◌then◌else◌, Bool-cases, inl, inr,
}

abbrev pub bytes_at : (ℕ → ℕ) → ℕ → ℕ → List ℕ
bytes_at mem a zero = []
bytes_at mem a (suc n) = mem a ∷ bytes_at mem (a + 1) n

pub bytes_at-append :
    (mem : ℕ → ℕ) (a n m : ℕ) → bytes_at mem a (n + m) ≡ bytes_at mem a n ++ bytes_at mem (a + n) m
bytes_at-append mem a zero m =
    let one : 0 + m ≡ m = omega arith in
    let two : a ≡ a + 0 = omega arith in ap₂ (bytes_at mem) two one
bytes_at-append mem a (suc n) m =
    let one : suc n + m ≡ suc (n + m) = omega arith in
    let two : a + 1 + n ≡ a + suc n = omega arith in
    ap (bytes_at mem a) one
    ∙ ap (λ s. mem a ∷ s)
        (bytes_at-append mem (a + 1) n m ∙ ap (λ t. bytes_at mem (a + 1) n ++ bytes_at mem t m) two)

pub length-bytes_at : (mem : ℕ → ℕ) (a n : ℕ) → length (bytes_at mem a n) ≡ n
length-bytes_at mem a zero = refl
length-bytes_at mem a (suc n) = ap suc (length-bytes_at mem (a + 1) n)

abbrev pub store : (ℕ → ℕ) → ℕ → List ℕ → ℕ → ℕ
store mem a [] = mem
store mem a (b ∷ bytes) = store (λ x. if x == a then b else mem x) (a + 1) bytes

fun_ext : {f g : ℕ → ℕ} → ((x : ℕ) → f x ≡ g x) → f ≡ g
fun_ext h = λ i x. h x i

-- A write at one address.
abbrev put : (ℕ → ℕ) → ℕ → ℕ → ℕ → ℕ
put mem a b x = if x == a then b else mem x

store_below : (mem : ℕ → ℕ) (a : ℕ) (bytes : List ℕ) (x : ℕ) → x < a → store mem a bytes x ≡ mem x
store_below mem a [] x h = refl
store_below mem a (b ∷ bytes) x h =
    store_below (put mem a b) (a + 1) bytes x (omega arith) ∙ ground arith

store_behind :
    (mem : ℕ → ℕ) (a : ℕ) (bytes : List ℕ) (x : ℕ)
    → a + length bytes ≤ x
    → store mem a bytes x ≡ mem x
store_behind mem a [] x h = refl
store_behind mem a (b ∷ bytes) x h =
    store_behind (put mem a b) (a + 1) bytes x (omega arith) ∙ ground arith

pub store-append :
    (mem : ℕ → ℕ) (a : ℕ) (xs ys : List ℕ)
    → store mem a (xs ++ ys) ≡ store (store mem a xs) (a + length xs) ys
store-append mem a [] ys = let e : a ≡ a + 0 = omega arith in ap (λ t. store mem t ys) e
store-append mem a (x ∷ xs) ys =
    let e : a + 1 + length xs ≡ a + suc (length xs) = omega arith in
    store-append (put mem a x) (a + 1) xs ys
    ∙ ap (λ t. store (store (put mem a x) (a + 1) xs) t ys) e

bytes_at-cong :
    (mem mem2 : ℕ → ℕ) (a n : ℕ)
    → ((x : ℕ) → a ≤ x → x < a + n → mem x ≡ mem2 x)
    → bytes_at mem a n ≡ bytes_at mem2 a n
bytes_at-cong mem mem2 a zero h = refl
bytes_at-cong mem mem2 a (suc n) h =
    ap₂ (λ b s. b ∷ s) (h a (omega arith) (omega arith))
      (bytes_at-cong mem mem2 (a + 1) n (λ x l u. h x (omega arith) (omega arith)))

-- What is behind the stored bytes is as before.
pub bytes_at-store_behind :
    (mem : ℕ → ℕ) (a : ℕ) (bytes : List ℕ) (c n : ℕ)
    → a + length bytes ≤ c
    → bytes_at (store mem a bytes) c n ≡ bytes_at mem c n
bytes_at-store_behind mem a bytes c n h =
    bytes_at-cong (store mem a bytes) mem c n (λ x l u. store_behind mem a bytes x (omega arith))

-- Stored bytes are read back.
pub bytes_at-store :
    (mem : ℕ → ℕ) (a : ℕ) (bytes : List ℕ) → bytes_at (store mem a bytes) a (length bytes) ≡ bytes
bytes_at-store mem a [] = refl
bytes_at-store mem a (b ∷ bytes) =
    ap₂ (λ c s. c ∷ s) (store_below (put mem a b) (a + 1) bytes a (omega arith) ∙ ground arith)
      (bytes_at-store (put mem a b) (a + 1) bytes)

-- Storing the bytes that are there changes nothing.
pub store-bytes_at : (mem : ℕ → ℕ) (a n : ℕ) → store mem a (bytes_at mem a n) ≡ mem
store-bytes_at mem a zero = refl
store-bytes_at mem a (suc n) =
    ap (λ m. store m (a + 1) (bytes_at mem (a + 1) n)) (fun_ext same) ∙ store-bytes_at mem (a + 1) n
  where
    same : (x : ℕ) → put mem a (mem a) x ≡ mem x
    same x = elim (Bool-cases (x == a)) [
      | inl equal ↦ let e : x ≡ a = ground arith in rw equal (ap mem (sym e))
      | inr other ↦ rw other refl
    ]

-- Bytes that are stored with what is behind them.
pub store-padded :
    (mem : ℕ → ℕ) (a : ℕ) (bytes : List ℕ) (n : ℕ)
    → store mem a (bytes ++ bytes_at mem (a + length bytes) n) ≡ store mem a bytes
store-padded mem a bytes n =
    store-append mem a bytes (bytes_at mem (a + length bytes) n)
    ∙ ap (store (store mem a bytes) (a + length bytes))
        (sym (bytes_at-store_behind mem a bytes (a + length bytes) n (omega arith)))
    ∙ store-bytes_at (store mem a bytes) (a + length bytes) n

pub take-bytes_at : (mem : ℕ → ℕ) (a n m : ℕ) → n ≤ m → take n (bytes_at mem a m) ≡ bytes_at mem a n
take-bytes_at mem a zero m h = refl
take-bytes_at mem a (suc n) zero h = absurd (omega arith)
take-bytes_at mem a (suc n) (suc m) h =
    ap (λ s. mem a ∷ s) (take-bytes_at mem (a + 1) n m (omega arith))

pub drop-bytes_at :
    (mem : ℕ → ℕ) (a n m : ℕ) → drop n (bytes_at mem a m) ≡ bytes_at mem (a + n) (m - n)
drop-bytes_at mem a zero m =
    let e : a ≡ a + 0 = omega arith in let f : m ≡ m - 0 = omega arith in ap₂ (bytes_at mem) e f
drop-bytes_at mem a (suc n) zero =
    let f : 0 ≡ 0 - suc n = omega arith in ap (bytes_at mem (a + suc n)) f
drop-bytes_at mem a (suc n) (suc m) =
    let e : a + 1 + n ≡ a + suc n = omega arith in
    let f : m - n ≡ suc m - suc n = omega arith in
    drop-bytes_at mem (a + 1) n m ∙ ap₂ (bytes_at mem) e f
