-- ===== src/Stdio/Bytes.antt =====
-- Bytes printed with `%02X` one behind the other.
use stm8flash.Common.{
  ap, ap₂, sym, append-nil, append_assoc, take-append-drop, drop-drop, ℕ, zero, suc, ◌*◌, ◌<◌, ◌≡◌,
  ◌∙◌, List, [], ◌∷◌, ◌++◌, arith,
}
use stm8flash.Common.{inl, inr, take, drop, length, All, All-append, All-map, length-append}
use stm8flash.Stdio.{hex_digits}
use stm8flash.Stdio.Print.{IsDigit, hex_digits-IsDigit, length-hex_digits}
use stm8flash.Stdio.Lines.{IsPlain}

abbrev pub IsByte : ℕ → Type 0
IsByte b = b < 256

-- Two digits for each byte.
unfoldable pub hex_bytes : List ℕ → List ℕ
hex_bytes [] = []
hex_bytes (b ∷ bytes) = hex_digits 2 b ++ hex_bytes bytes

IsDigit-IsPlain : (c : ℕ) → IsDigit c → IsPlain c
IsDigit-IsPlain c (inl h) = (λ e. absurd (omega arith), λ e. absurd (omega arith))
IsDigit-IsPlain c (inr h) = (λ e. absurd (omega arith), λ e. absurd (omega arith))

pub hex_digits-IsPlain : (k n : ℕ) → All IsPlain (hex_digits k n)
hex_digits-IsPlain k n = All-map (hex_digits k n) IsDigit-IsPlain (hex_digits-IsDigit k n)

pub hex_bytes-IsPlain : (bytes : List ℕ) → All IsPlain (hex_bytes bytes)
unfolding hex_bytes
hex_bytes-IsPlain [] = tt
hex_bytes-IsPlain (b ∷ bytes) =
    All-append IsPlain (hex_digits 2 b) (hex_bytes bytes) (hex_digits-IsPlain 2 b)
      (hex_bytes-IsPlain bytes)

pub length-hex_bytes : (bytes : List ℕ) → length (hex_bytes bytes) ≡ 2 * length bytes
unfolding hex_bytes
length-hex_bytes [] = omega arith
length-hex_bytes (b ∷ bytes) =
    length-append (hex_digits 2 b) (hex_bytes bytes)
    ∙ omega (arith, length-hex_digits 2 b, length-hex_bytes bytes)

pub All-take : (n : ℕ) (xs : List ℕ) → All IsByte xs → All IsByte (take n xs)
All-take zero xs h = tt
All-take (suc n) [] h = tt
All-take (suc n) (x ∷ xs) h = (h.0, All-take n xs h.1)

pub All-drop : (n : ℕ) (xs : List ℕ) → All IsByte xs → All IsByte (drop n xs)
All-drop zero xs h = h
All-drop (suc n) [] h = tt
All-drop (suc n) (x ∷ xs) h = All-drop n xs h.1

-- What is left of the lists when `bytes` is taken in two parts.
pub bytes_parts :
    (n : ℕ) (pre bytes old : List ℕ)
    → length (take n bytes) ≡ n
    → ((pre ++ take n bytes) ++ drop n bytes)
        ++ drop (length (drop n bytes)) (drop (length (take n bytes)) old)
      ≡ (pre ++ bytes) ++ drop (length bytes) old
bytes_parts n pre bytes old e =
    ap₂ ◌++◌
      (append_assoc pre (take n bytes) (drop n bytes)
        ∙ ap (λ t. pre ++ t) (take-append-drop n bytes))
      (drop-drop (length (take n bytes)) (length (drop n bytes)) old
        ∙ ap (λ t. drop t old)
            (omega (
              arith,
              ap length (take-append-drop n bytes),
              length-append (take n bytes) (drop n bytes),
            )))

pub bytes_none :
    (pre bytes old : List ℕ)
    → length bytes ≡ 0
    → pre ++ old ≡ (pre ++ bytes) ++ drop (length bytes) old
bytes_none pre [] old e = ap (λ t. t ++ old) (sym (append-nil pre))
bytes_none pre (b ∷ bytes) old e = absurd (omega arith)

-- The first `n` of the rest go over to what is before it.
pub pre_front : (n : ℕ) (pre rest : List ℕ) → pre ++ rest ≡ (pre ++ take n rest) ++ drop n rest
pre_front n pre rest =
    ap (λ t. pre ++ t) (sym (take-append-drop n rest))
    ∙ sym (append_assoc pre (take n rest) (drop n rest))
