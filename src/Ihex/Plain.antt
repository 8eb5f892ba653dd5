-- ===== src/Ihex/Plain.antt =====
-- The lines of an Intel hex file hold no newline, and fit the array of ihex_read.
use stm8flash.Stdio.Bytes.{hex_bytes, hex_bytes-IsPlain, length-hex_bytes, hex_digits-IsPlain}
use stm8flash.Common.{ℕ, ◌+◌, ◌*◌, ◌≡◌, refl}
use stm8flash.Common.{List, [], ◌∷◌, arith}
use stm8flash.Common.{length, All, All-append, length-append, u16}
use stm8flash.Stdio.{hex_digits}
use stm8flash.Stdio.Print.{length-hex_digits}
use stm8flash.Stdio.Lines.{IsPlain}
use stm8flash.Ihex.Text.{data_line, ela_line, end_line}

IsPlain-colon : IsPlain b':'
IsPlain-colon = (λ e. absurd (omega arith), λ e. absurd (omega arith))

IsPlain-zero : IsPlain b'0'
IsPlain-zero = (λ e. absurd (omega arith), λ e. absurd (omega arith))

pub data_line-IsPlain : (addr : ℕ) (bytes : List ℕ) → All IsPlain (data_line addr bytes)
unfolding data_line
data_line-IsPlain addr bytes = (
  IsPlain-colon,
  All-append IsPlain (hex_digits 2 (length bytes)) _ (hex_digits-IsPlain 2 (length bytes)) (
      All-append IsPlain (hex_digits 4 (u16 addr)) _ (hex_digits-IsPlain 4 (u16 addr)) (
        IsPlain-zero,
        (
          IsPlain-zero,
          All-append IsPlain (hex_bytes bytes) _ (hex_bytes-IsPlain bytes) (hex_digits-IsPlain 2 _),
        ),
      )),
)

pub length-data_line :
    (addr : ℕ) (bytes : List ℕ) → length (data_line addr bytes) ≡ 11 + 2 * length bytes
unfolding data_line
length-data_line addr bytes =
    simp (length-append {0}, length-hex_digits, length-hex_bytes) (omega arith)

pub ela_line-IsPlain : (block : ℕ) → All IsPlain (ela_line block)
unfolding ela_line
ela_line-IsPlain block =
    All-append IsPlain (b':' ∷ b'0' ∷ b'2' ∷ b'0' ∷ b'0' ∷ b'0' ∷ b'0' ∷ b'0' ∷ b'4' ∷ []) _
      (omega arith)
      (All-append IsPlain (hex_digits 4 block) _ (hex_digits-IsPlain 4 block)
        (hex_digits-IsPlain 2 _))

pub end_line-IsPlain : All IsPlain end_line
unfolding end_line
end_line-IsPlain = omega arith

pub length-ela_line : (block : ℕ) → length (ela_line block) ≡ 15
unfolding ela_line
length-ela_line block = simp (length-append {0}, length-hex_digits)

pub length-end_line : length end_line ≡ 11
unfolding end_line
length-end_line = refl
