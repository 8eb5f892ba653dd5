-- ===== src/Srec/Plain.antt =====
-- The lines of an S-record file hold no newline, and fit the array of srec_read.
use stm8flash.Common.{ℕ, ◌+◌, ◌-◌, ◌*◌, ◌≡◌, refl}
use stm8flash.Common.{List, [], ◌∷◌, arith, length, length-append, All, All-append}
use stm8flash.Stdio.{hex_digits}
use stm8flash.Stdio.Print.{length-hex_digits}
use stm8flash.Stdio.Lines.{IsPlain}
use stm8flash.Stdio.Bytes.{hex_bytes, hex_digits-IsPlain, hex_bytes-IsPlain, length-hex_bytes}
use stm8flash.Srec.Text.{digits_of, srec_line, header_line, count_line, end_line}

IsPlain-S : IsPlain b'S'
IsPlain-S = (λ e. absurd (omega arith), λ e. absurd (omega arith))

pub srec_line-IsPlain : (kind addr : ℕ) (bytes : List ℕ) → All IsPlain (srec_line kind addr bytes)
unfolding srec_line
srec_line-IsPlain kind addr bytes = (
  IsPlain-S,
  All-append IsPlain (hex_digits 1 kind) _ (hex_digits-IsPlain 1 kind) (
      All-append IsPlain (hex_digits 2 (length bytes + kind + 2)) _ (hex_digits-IsPlain 2 _) (
        All-append IsPlain (hex_digits (digits_of kind) addr) _
          (hex_digits-IsPlain (digits_of kind) addr)
          (All-append IsPlain (hex_bytes bytes) _ (hex_bytes-IsPlain bytes)
            (hex_digits-IsPlain 2 _)))),
)

pub length-srec_line :
    (kind addr : ℕ) (bytes : List ℕ)
    → length (srec_line kind addr bytes) ≡ 8 + 2 * kind + 2 * length bytes
unfolding srec_line
length-srec_line kind addr bytes =
    simp (length-append {0}, length-hex_digits, length-hex_bytes) (omega arith)

pub header_line-IsPlain : All IsPlain header_line
unfolding header_line
header_line-IsPlain = omega arith

pub length-header_line : length header_line ≡ 10
unfolding header_line
length-header_line = refl

pub count_line-IsPlain : (num : ℕ) → All IsPlain (count_line num)
unfolding count_line
count_line-IsPlain num =
    All-append IsPlain (b'S' ∷ b'5' ∷ b'0' ∷ b'3' ∷ []) _ (omega arith)
      (All-append IsPlain (hex_digits 4 num) _ (hex_digits-IsPlain 4 num) (hex_digits-IsPlain 2 _))

pub length-count_line : (num : ℕ) → length (count_line num) ≡ 10
unfolding count_line
length-count_line num = simp (length-append {0}, length-hex_digits)

pub end_line-IsPlain : (kind : ℕ) → All IsPlain (end_line kind)
unfolding end_line
end_line-IsPlain kind = (
  IsPlain-S,
  All-append IsPlain (hex_digits 1 (10 - kind)) _ (hex_digits-IsPlain 1 (10 - kind)) (
      All-append IsPlain (hex_digits 2 (kind + 2)) _ (hex_digits-IsPlain 2 (kind + 2)) (
        All-append IsPlain (hex_digits (digits_of kind) 0) _ (hex_digits-IsPlain (digits_of kind) 0)
          (hex_digits-IsPlain 2 _))),
)

pub length-end_line : (kind : ℕ) → length (end_line kind) ≡ 8 + 2 * kind
unfolding end_line
length-end_line kind = simp (length-append {0}, length-hex_digits) (omega arith)
