-- ===== src/Ihex/Text.antt =====
-- The text of an Intel hex file, line by line, and that the writer of ihex.c writes it when no
-- call of fprintf fails.
use stm8flash.Stdio.Bytes.{IsByte, hex_bytes}
use stm8flash.Common.{ℕ, zero, suc, ◌+◌, ◌<◌, ◌≡◌, refl, sym, ap, ◌∙◌}
use stm8flash.Common.{List, [], ◌∷◌, ◌++◌, append-nil, append_assoc, Bool, true, arith}
use stm8flash.Common.{ltb, ◌==◌, if◌then◌else◌, take, drop, length, All, u16, ◌>>◌}
use stm8flash.Common.{Bool-cases, inl, inr}
use stm8flash.Stdio.{newline, hex_digits}
use stm8flash.Stdio.Print.{print_hex-eq-hex_digits}
use stm8flash.Ihex.{hi, lo, sum_bytes, checksum, write_bytes}
use stm8flash.Stdio.Output.{ok, fprintf, fprintf_unchecked}
use stm8flash.Ihex.{write_ela, write_data, write_end, chunk_length}

-- The line of an extended linear address record, with no newline.
unfoldable pub ela_line : ℕ → List ℕ
ela_line block =
    b':'
    ∷ b'0'
    ∷ b'2'
    ∷ b'0'
    ∷ b'0'
    ∷ b'0'
    ∷ b'0'
    ∷ b'0'
    ∷ b'4'
    ∷ (hex_digits 4 block ++ hex_digits 2 (checksum (hi block ∷ lo block ∷ []) 2 2 0 4))

-- The line of a data record, with no newline.
unfoldable pub data_line : ℕ → List ℕ → List ℕ
data_line addr bytes =
    b':'
    ∷ (hex_digits 2 (length bytes)
        ++ (hex_digits 4 (u16 addr)
            ++ (b'0'
                ∷ b'0'
                ∷ (hex_bytes bytes
                    ++ hex_digits 2 (checksum bytes (length bytes) (length bytes) addr 0)))))

-- The record that is written if the block of 64k is not `cur_ela`.
unfoldable pub ela_text : ℕ → ℕ → List ℕ
ela_text cur_ela block = if cur_ela == block then [] else ela_line block ++ (newline ∷ [])

unfoldable pub end_line : List ℕ
end_line = b':' ∷ b'0' ∷ b'0' ∷ b'0' ∷ b'0' ∷ b'0' ∷ b'0' ∷ b'0' ∷ b'1' ∷ b'F' ∷ b'F' ∷ []

pub checksum-IsByte : (bytes : List ℕ) (n len addr kind : ℕ) → checksum bytes n len addr kind < 256
unfolding checksum
checksum-IsByte bytes n len addr kind = omega arith

sum_bytes-append :
    (bytes more : List ℕ)
    → sum_bytes (length bytes) (bytes ++ more) ≡ sum_bytes (length bytes) bytes
unfolding sum_bytes
sum_bytes-append [] more = refl
sum_bytes-append (b ∷ bytes) more = ap (λ t. b + t) (sum_bytes-append bytes more)

-- The checksum does not look behind the record, nor at the upper half of its address.
checksum-append :
    (bytes more : List ℕ) (len addr : ℕ)
    → checksum (bytes ++ more) (length bytes) len addr 0 ≡ checksum bytes (length bytes) len addr 0
unfolding checksum
checksum-append bytes more len addr = rw (sum_bytes-append bytes more)

module _ (accepts : List ℕ → List ℕ → Bool) (all : (f t : List ℕ) → accepts f t ≡ true) where
  pub fprintf_ok : (file text : List ℕ) → fprintf accepts file text ≡ ok (file ++ text)
  unfolding fprintf
  fprintf_ok file text = rw (all file text)

  fprintf_unchecked_ok : (file text : List ℕ) → fprintf_unchecked accepts file text ≡ file ++ text
  unfolding fprintf_unchecked
  fprintf_unchecked_ok file text = rw (all file text)

  write_bytes_ok :
      (bytes more file : List ℕ)
      → All IsByte bytes
      → write_bytes accepts (length bytes) (bytes ++ more) file ≡ ok (file ++ hex_bytes bytes)
  unfolding write_bytes hex_bytes
  write_bytes_ok [] more file h = ap ok (sym (append-nil file))
  write_bytes_ok (b ∷ bytes) more file h =
      rw
        (
          print_hex-eq-hex_digits 2 b (omega arith) (omega (arith, h.0)) (omega (arith, h.0)),
          fprintf_ok file (hex_digits 2 b),
        )
        (write_bytes_ok bytes more (file ++ hex_digits 2 b) h.1
          ∙ ap ok (append_assoc file (hex_digits 2 b) (hex_bytes bytes)))

  pub write_end_ok :
      (file : List ℕ) → write_end accepts file ≡ ok (file ++ (end_line ++ (newline ∷ [])))
  unfolding write_end end_line
  write_end_ok file = fprintf_ok file _

  pub write_ela_ok :
      (cur_ela block : ℕ) (file : List ℕ)
      → block < 65536
      → write_ela accepts cur_ela block file ≡ ok (file ++ ela_text cur_ela block)
  unfolding write_ela ela_line ela_text
  write_ela_ok cur_ela block file h = elim (Bool-cases (cur_ela == block)) [
    | inl same ↦ rw same (ap ok (sym (append-nil file)))
    | inr other ↦
        rw
          (
            other,
            print_hex-eq-hex_digits 4 block (omega arith) (omega arith) (omega arith),
            print_hex-eq-hex_digits 2 sum (omega arith) (omega (arith, sum-IsByte))
                (omega (arith, sum-IsByte)),
            append_assoc (hex_digits 4 block) (hex_digits 2 sum) (newline ∷ []),
          )
          (fprintf_ok file _)
  ]
    where
      sum : ℕ
      sum = checksum (hi block ∷ lo block ∷ []) 2 2 0 4

      sum-IsByte : sum < 256
      sum-IsByte = checksum-IsByte (hi block ∷ lo block ∷ []) 2 2 0 4

  pub write_data_ok :
      (addr : ℕ) (bytes more file : List ℕ)
      → length bytes < 256
      → All IsByte bytes
      → write_data accepts (length bytes) addr (bytes ++ more) file
        ≡ ok (file ++ (data_line addr bytes ++ (newline ∷ [])))
  unfolding write_data data_line
  write_data_ok addr bytes more file short h =
      rw
        (
          print_hex-eq-hex_digits 2 (length bytes) (omega arith) (omega arith) (omega arith),
          print_hex-eq-hex_digits 4 (u16 addr) (omega arith) (omega arith) (omega arith),
          fprintf_unchecked_ok file _,
          write_bytes_ok bytes more _ h,
          checksum-append bytes more (length bytes) addr,
          print_hex-eq-hex_digits 2 sum (omega arith) (omega (arith, sum-IsByte))
              (omega (arith, sum-IsByte)),
          fprintf_ok _ _,
        )
        (simp append_assoc)
    where
      sum : ℕ
      sum = checksum bytes (length bytes) (length bytes) addr 0

      sum-IsByte : sum < 256
      sum-IsByte = checksum-IsByte bytes (length bytes) (length bytes) addr 0

-- What the loop writes from the address `addr` on, where `bytes` are still to come.
unfoldable pub loop_text : ℕ → ℕ → ℕ → ℕ → List ℕ → List ℕ
loop_text zero stop cur_ela addr bytes = end_line ++ (newline ∷ [])
loop_text (suc fuel) stop cur_ela addr bytes =
    let n = chunk_length stop addr in
    let rest = loop_text fuel stop (addr >> 16) (addr + n) (drop n bytes) in
    if ltb addr stop
    then ela_text cur_ela (addr >> 16) ++ (data_line addr (take n bytes) ++ (newline ∷ rest))
    else end_line ++ (newline ∷ [])
