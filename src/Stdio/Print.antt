-- ===== src/Stdio/Print.antt =====
-- What printf writes for a number, sscanf reads back.
use native.Mathlib.Nat.{pow-suc, pow-le-pow_right}
use stm8flash.Common.{ℕ, zero, suc, ◌+◌, ◌-◌, ◌*◌, ◌/◌, ◌%◌, ◌^◌, ◌≤◌, ◌<◌, ◌≡◌, refl, sym, ap, ◌∙◌}
use stm8flash.Common.{◌⊎◌, List, [], ◌∷◌, ◌++◌, append_assoc, some, arith}
use stm8flash.Common.{length, length-append, All, All-append}
use stm8flash.Stdio.{hex_digit, hex_digits, strip_zeros, print_hex, digit_value, scan_digits}
use stm8flash.Stdio.{scan_hex, wrap_value}

abbrev pub IsDigit : ℕ → Type 0
IsDigit c = ((48 ≤ c) × (c ≤ 57)) ⊎ ((65 ≤ c) × (c ≤ 70))

pub hex_digit-IsDigit : (d : ℕ) → d < 16 → IsDigit (hex_digit d)
unfolding hex_digit
hex_digit-IsDigit d h = ground arith

pub digit_value-hex_digit : (d : ℕ) → d < 16 → digit_value (hex_digit d) ≡ some d
unfolding hex_digit digit_value
digit_value-hex_digit d h = ground arith

pub hex_digits-IsDigit : (k n : ℕ) → All IsDigit (hex_digits k n)
unfolding hex_digits
hex_digits-IsDigit zero n = tt
hex_digits-IsDigit (suc k) n =
    All-append IsDigit (hex_digits k (n / 16)) (hex_digit (n % 16) ∷ [])
      (hex_digits-IsDigit k (n / 16)) (hex_digit-IsDigit (n % 16) (omega arith), tt)

pub length-hex_digits : (k n : ℕ) → length (hex_digits k n) ≡ k
unfolding hex_digits
length-hex_digits zero n = refl
length-hex_digits (suc k) n =
    rw (length-append (hex_digits k (n / 16)) _) (omega (arith, length-hex_digits k (n / 16)))

div-lt-pow : (k n : ℕ) → n < 16 ^ suc k → n / 16 < 16 ^ k
div-lt-pow k n h = omega (arith, pow-suc 16 k)

horner : (k acc n : ℕ) → (acc * 16 ^ k + n / 16) * 16 + n % 16 ≡ acc * 16 ^ suc k + n
horner k acc n = omega (arith, ap (λ (t : ℕ). acc * t) (pow-suc 16 k))

scan_digits-digit :
    (w acc d : ℕ) (r : List ℕ)
    → d < 16
    → scan_digits (suc w) acc (hex_digit d ∷ r) ≡ scan_digits w (acc * 16 + d) r
unfolding scan_digits
scan_digits-digit w acc d r h = rw (digit_value-hex_digit d h, scan_digits)

-- The digits of a number that has `k` of them at most are read as that number.
pub scan_digits-hex_digits :
    (k m acc n : ℕ) (r : List ℕ)
    → n < 16 ^ k
    → scan_digits (k + m) acc (hex_digits k n ++ r) ≡ scan_digits m (acc * 16 ^ k + n) r
unfolding hex_digits
scan_digits-hex_digits zero m acc n r h =
    ap (λ t. scan_digits t acc r) (omega arith) ∙ ap (λ t. scan_digits m t r) (omega arith)
scan_digits-hex_digits (suc k) m acc n r h =
    ap (scan_digits (suc k + m) acc)
      (append_assoc (hex_digits k (n / 16)) (hex_digit (n % 16) ∷ []) r)
    ∙ ap (λ t. scan_digits t acc (hex_digits k (n / 16) ++ (hex_digit (n % 16) ∷ r))) (omega arith)
    ∙ scan_digits-hex_digits k (suc m) acc (n / 16) (hex_digit (n % 16) ∷ r) (div-lt-pow k n h)
    ∙ scan_digits-digit m (acc * 16 ^ k + n / 16) (n % 16) r (omega arith)
    ∙ ap (λ t. scan_digits m t r) (horner k acc n)

-- A text that begins with a digit is read from there on.
scan_hex-one :
    (c : ℕ) (s : List ℕ)
    → IsDigit c
    → scan_hex 1 (c ∷ s) ≡ wrap_value (some (scan_digits 1 0 (c ∷ s)))
unfolding scan_hex
scan_hex-one c [] h = ground arith
scan_hex-one c (d ∷ s) h = ground arith

scan_hex-two :
    (w c d : ℕ) (s : List ℕ)
    → IsDigit c
    → IsDigit d
    → scan_hex (suc (suc w)) (c ∷ d ∷ s)
      ≡ wrap_value (some (scan_digits (suc (suc w)) 0 (c ∷ d ∷ s)))
unfolding scan_hex
scan_hex-two w c d s h k = ground arith

scan_hex-text :
    (w : ℕ) (ds s : List ℕ)
    → 2 ≤ length ds
    → All IsDigit ds
    → scan_hex (suc (suc w)) (ds ++ s) ≡ wrap_value (some (scan_digits (suc (suc w)) 0 (ds ++ s)))
scan_hex-text w [] s e h = absurd (omega arith)
scan_hex-text w (c ∷ []) s e h = absurd (omega arith)
scan_hex-text w (c ∷ d ∷ ds) s e h = scan_hex-two w c d (ds ++ s) h.0 h.1.0

-- `k` printed digits under a width of `k + m`: `m` more characters may belong to the number.
pub scan_hex-hex_digits :
    (k m n : ℕ) (r : List ℕ)
    → n < 16 ^ suc (suc k)
    → scan_hex (suc (suc k) + m) (hex_digits (suc (suc k)) n ++ r)
      ≡ wrap_value (some (scan_digits m n r))
scan_hex-hex_digits k m n r h =
    ap (λ w. scan_hex w (hex_digits (suc (suc k)) n ++ r)) widths
    ∙ scan_hex-text (k + m) (hex_digits (suc (suc k)) n) r
        (omega (arith, length-hex_digits (suc (suc k)) n)) (hex_digits-IsDigit (suc (suc k)) n)
    ∙ ap (λ w. wrap_value (some (scan_digits w 0 (hex_digits (suc (suc k)) n ++ r)))) (sym widths)
    ∙ ap (λ t. wrap_value (some t)) (scan_digits-hex_digits (suc (suc k)) m 0 n r h)
    ∙ ap (λ t. wrap_value (some (scan_digits m t r))) (omega arith)
  where
    widths : suc (suc k) + m ≡ suc (suc (k + m))
    widths = omega arith

-- `%02x` reads a printed byte.
pub scan_hex-byte : (b : ℕ) (r : List ℕ) → b < 256 → scan_hex 2 (hex_digits 2 b ++ r) ≡ some (b, r)
unfolding scan_digits
scan_hex-byte b r h =
    scan_hex-hex_digits 0 0 b r (omega arith) ∙ ap (λ t. some (t, r)) (omega arith)

-- `%04x` reads a printed 16-bit number.
pub scan_hex-word :
    (a : ℕ) (r : List ℕ) → a < 65536 → scan_hex 4 (hex_digits 4 a ++ r) ≡ some (a, r)
unfolding scan_digits
scan_hex-word a r h =
    scan_hex-hex_digits 2 0 a r (omega arith) ∙ ap (λ t. some (t, r)) (omega arith)

-- `%01x` reads a printed digit.
pub scan_hex-digit : (d : ℕ) (r : List ℕ) → d < 16 → scan_hex 1 (hex_digits 1 d ++ r) ≡ some (d, r)
unfolding scan_digits hex_digits
scan_hex-digit d r h =
    scan_hex-one (hex_digit (d % 16)) r (hex_digit-IsDigit (d % 16) (omega arith))
    ∙ ap (λ t. wrap_value (some t)) (scan_digits-hex_digits 1 0 0 d r (omega arith))
    ∙ ap (λ t. some (t, r)) (omega arith)

-- The digit in front of a number that needs fewer is a zero.
hex_digits-zero : (k n : ℕ) → n < 16 ^ k → hex_digits (suc k) n ≡ 48 ∷ hex_digits k n
unfolding hex_digits hex_digit
hex_digits-zero zero n h = let e : n % 16 ≡ 0 = omega arith in rw e
hex_digits-zero (suc k) n h =
    ap (λ t. t ++ (hex_digit (n % 16) ∷ [])) (hex_digits-zero k (n / 16) (div-lt-pow k n h))

pow_mono : (j w : ℕ) → 16 ^ w ≤ 16 ^ (j + w)
pow_mono j w = pow-le-pow_right (omega arith) (omega arith)

strip_zeros-hex_digits :
    (j w n : ℕ) → n < 16 ^ w → strip_zeros j (hex_digits (j + w) n) ≡ hex_digits w n
unfolding strip_zeros
strip_zeros-hex_digits zero w n h = ap (λ t. hex_digits t n) (omega arith)
strip_zeros-hex_digits (suc j) w n h = rw (front, strip_zeros) (strip_zeros-hex_digits j w n h)
  where
    front : hex_digits (suc j + w) n ≡ 48 ∷ hex_digits (j + w) n
    front =
        ap (λ t. hex_digits t n) (omega arith)
        ∙ hex_digits-zero (j + w) n (omega (arith, pow_mono j w))

-- A number that fits `w` digits is printed with exactly `w` of them.
pub print_hex-eq-hex_digits :
    (w n : ℕ) → w ≤ 8 → n < 16 ^ w → n < 4294967296 → print_hex w n ≡ hex_digits w n
unfolding print_hex
print_hex-eq-hex_digits w n hw h h32 =
    ap (λ t. strip_zeros (8 - w) (hex_digits 8 t)) (omega arith)
    ∙ ap (λ t. strip_zeros (8 - w) (hex_digits t n)) (omega arith)
    ∙ strip_zeros-hex_digits (8 - w) w n h
