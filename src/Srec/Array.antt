-- ===== src/Srec/Array.antt =====
-- The line of a data record of srec.c as the array of srec_read holds it.
use stm8flash.Common.{ℕ, ◌+◌, ◌*◌, ◌<◌, ◌≡◌, refl}
use stm8flash.Common.{List, [], ◌∷◌, ◌++◌, append_assoc, arith}
use stm8flash.Common.{drop, length, All}
use stm8flash.Common.{u8, u32}
use stm8flash.Stdio.{newline, hex_digits, store_line}
use stm8flash.Stdio.Bytes.{IsByte, hex_bytes}
use stm8flash.Srec.{sum_bytes, srec_csum}
use stm8flash.Srec.Text.{IsKind, digits_of, by_kind, srec_line}
use stm8flash.Srec.Reader.{header_sum}

abbrev pub next_array : List ℕ → List ℕ → List ℕ
next_array l line = store_line (l ++ (newline ∷ [])) line

-- The line as the array holds it: `tail` begins with the newline.
abbrev pub array_of : ℕ → ℕ → List ℕ → List ℕ → List ℕ
array_of kind addr bytes tail =
    b'S'
    ∷ (hex_digits 1 kind
        ++ (hex_digits 2 (length bytes + kind + 2)
            ++ (hex_digits (digits_of kind) addr
                ++ (hex_bytes bytes
                    ++ (hex_digits 2 (srec_csum bytes (length bytes) (length bytes + kind + 2) addr)
                        ++ tail)))))

pub srec_line-array :
    (kind addr : ℕ) (bytes old : List ℕ)
    → (tail : List ℕ) × (next_array (srec_line kind addr bytes) old ≡ array_of kind addr bytes tail)
unfolding store_line srec_line
srec_line-array kind addr bytes old = (
  newline ∷ 0 ∷ drop (length (srec_line kind addr bytes ++ (newline ∷ [])) + 1) old,
  simp append_assoc,
)

-- There are two bytes at least behind the address.
pub two_bytes :
    (b c : ℕ) (ds tail : List ℕ)
    → All IsByte (b ∷ ds)
    → c < 256
    → (d : ℕ) × (e : ℕ) × (s : List ℕ) × (d < 256)
      × (e < 256)
      × (hex_bytes (b ∷ ds) ++ (hex_digits 2 c ++ tail) ≡ hex_digits 2 d ++ (hex_digits 2 e ++ s))
unfolding hex_bytes
two_bytes b c [] tail h hc = (b, c, tail, h.0, hc, simp append_assoc)
two_bytes b c (d ∷ ds) tail h hc =
    (b, d, hex_bytes ds ++ (hex_digits 2 c ++ tail), h.0, h.1.0, simp append_assoc)

pub drop_head :
    (kind len addr : ℕ) (s : List ℕ)
    → IsKind kind
    → drop (2 * (kind + 3)) (
        b'S' ∷ (hex_digits 1 kind ++ (hex_digits 2 len ++ (hex_digits (digits_of kind) addr ++ s))))
      ≡ s
unfolding hex_digits
drop_head kind len addr s k =
    by_kind
      (λ kind.
        drop (2 * (kind + 3)) (
          b'S'
          ∷ (hex_digits 1 kind ++ (hex_digits 2 len ++ (hex_digits (digits_of kind) addr ++ s))))
        ≡ s)
      refl refl refl kind k

-- The checksum of a record that the writer has summed up is accepted.
pub check_sum-srec_csum :
    (bytes : List ℕ) (n len addr : ℕ)
    → u8 (u32 (header_sum len addr + sum_bytes n bytes) + srec_csum bytes n len addr) ≡ 255
unfolding srec_csum header_sum
check_sum-srec_csum bytes n len addr = omega arith
