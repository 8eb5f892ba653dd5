-- ===== src/Srec/Text.antt =====
-- The text of an S-record file, line by line, and that the writer of srec.c writes it when no
-- call of fprintf fails.
use stm8flash.Common.{ℕ, zero, suc, ◌+◌, ◌*◌, ◌-◌, ◌/◌, ◌≤◌, ◌<◌, ◌≡◌, refl, sym, ap, ◌∙◌}
use stm8flash.Common.{List, [], ◌∷◌, ◌++◌, append-nil, append_assoc, subst, Bool, true, arith, u16}
use stm8flash.Common.{◌⊎◌, inl, inr, ◌^◌, take, drop, length, All}
use stm8flash.Stdio.{newline, hex_digits, print_hex}
use stm8flash.Stdio.Print.{print_hex-eq-hex_digits}
use stm8flash.Stdio.Bytes.{IsByte, hex_bytes}
use stm8flash.Stdio.Output.{ok, fprintf_unchecked}
use stm8flash.Common.{ltb, if◌then◌else◌}
use stm8flash.Srec.{
  chunk_length, sum_bytes, srec_csum, data_rectype, addr_width, write_bytes, write_data, write_end,
}

-- A type of data records: with an address of 16, 24 or 32 bits.
abbrev pub IsKind : ℕ → Type 0
IsKind kind = (kind ≡ 1) ⊎ (kind ≡ 2) ⊎ (kind ≡ 3)

abbrev pub digits_of : ℕ → ℕ
digits_of kind = 2 + 2 * kind

-- The line of a data record, with no newline.
unfoldable pub srec_line : ℕ → ℕ → List ℕ → List ℕ
srec_line kind addr bytes =
    let len = length bytes + kind + 2 in
    b'S'
    ∷ (hex_digits 1 kind
        ++ (hex_digits 2 len
            ++ (hex_digits (digits_of kind) addr
                ++ (hex_bytes bytes ++ hex_digits 2 (srec_csum bytes (length bytes) len addr)))))

unfoldable pub header_line : List ℕ
header_line = b'S' ∷ b'0' ∷ b'0' ∷ b'3' ∷ b'0' ∷ b'0' ∷ b'0' ∷ b'0' ∷ b'F' ∷ b'C' ∷ []

-- The line with the number of data records.
unfoldable pub count_line : ℕ → List ℕ
count_line num =
    b'S' ∷ b'5' ∷ b'0' ∷ b'3' ∷ (hex_digits 4 num ++ hex_digits 2 (srec_csum [] 0 3 num))

unfoldable pub end_line : ℕ → List ℕ
end_line kind =
    b'S'
    ∷ (hex_digits 1 (10 - kind)
        ++ (hex_digits 2 (kind + 2)
            ++ (hex_digits (digits_of kind) 0 ++ hex_digits 2 (srec_csum [] 0 (kind + 2) 0))))

pub srec_csum-IsByte : (bytes : List ℕ) (n len addr : ℕ) → srec_csum bytes n len addr < 256
unfolding srec_csum
srec_csum-IsByte bytes n len addr = omega arith

-- A checksum over no data does not look at the buffer.
srec_csum-none :
    (bytes : List ℕ) (len addr : ℕ) → srec_csum bytes 0 len addr ≡ srec_csum [] 0 len addr
unfolding srec_csum sum_bytes
srec_csum-none bytes len addr = refl

sum_bytes-append :
    (bytes more : List ℕ)
    → sum_bytes (length bytes) (bytes ++ more) ≡ sum_bytes (length bytes) bytes
unfolding sum_bytes
sum_bytes-append [] more = refl
sum_bytes-append (b ∷ bytes) more = ap (λ t. b + t) (sum_bytes-append bytes more)

srec_csum-append :
    (bytes more : List ℕ) (len addr : ℕ)
    → srec_csum (bytes ++ more) (length bytes) len addr ≡ srec_csum bytes (length bytes) len addr
unfolding srec_csum
srec_csum-append bytes more len addr = rw (sum_bytes-append bytes more)

-- The type of the data records by the end of the range, with the width of their addresses.
pub data_rectype-cases :
    (stop : ℕ)
    → stop < 4294967296
    → IsKind (data_rectype stop)
      × (addr_width stop ≡ digits_of (data_rectype stop))
      × (stop < 256 ^ (data_rectype stop + 1))
unfolding data_rectype addr_width
data_rectype-cases stop h = ground arith

-- What holds of the three types holds of each.
pub by_kind {ℓ} : (P : ℕ → Type ℓ) → P 1 → P 2 → P 3 → (kind : ℕ) → IsKind kind → P kind
by_kind P one two three kind (inl e) = subst P (sym e) one
by_kind P one two three kind (inr (inl e)) = subst P (sym e) two
by_kind P one two three kind (inr (inr e)) = subst P (sym e) three

print_hex-address :
    (kind addr : ℕ)
    → IsKind kind
    → addr < 256 ^ (kind + 1)
    → print_hex (digits_of kind) addr ≡ hex_digits (digits_of kind) addr
print_hex-address kind addr k =
    by_kind
      (λ kind.
        addr < 256 ^ (kind + 1)
        → print_hex (digits_of kind) addr ≡ hex_digits (digits_of kind) addr)
      (λ h. print_hex-eq-hex_digits 4 addr (omega arith) (omega arith) (omega arith))
      (λ h. print_hex-eq-hex_digits 6 addr (omega arith) (omega arith) (omega arith))
      (λ h. print_hex-eq-hex_digits 8 addr (omega arith) (omega arith) (omega arith)) kind k

module _ (accepts : List ℕ → List ℕ → Bool) (all : (f t : List ℕ) → accepts f t ≡ true) where
  pub fprintf_unchecked_ok :
      (file text : List ℕ) → fprintf_unchecked accepts file text ≡ file ++ text
  unfolding fprintf_unchecked
  fprintf_unchecked_ok file text = rw (all file text)

  write_bytes_ok :
      (bytes more file : List ℕ)
      → All IsByte bytes
      → write_bytes accepts (length bytes) (bytes ++ more) file ≡ ok (file ++ hex_bytes bytes)
  unfolding write_bytes hex_bytes
  write_bytes_ok [] more file h = ap ok (sym (append-nil file))
  write_bytes_ok (b ∷ bytes) more file h =
      rw
        (
          print_hex-eq-hex_digits 2 b (omega arith) (omega (arith, h.0)) (omega (arith, h.0)),
          fprintf_unchecked_ok file (hex_digits 2 b),
        )
        (write_bytes_ok bytes more (file ++ hex_digits 2 b) h.1
          ∙ ap ok (append_assoc file (hex_digits 2 b) (hex_bytes bytes)))

  -- The record of the first bytes of a buffer.
  pub write_data_ok :
      (kind addr : ℕ) (bytes more file : List ℕ)
      → IsKind kind
      → addr < 256 ^ (kind + 1)
      → length bytes ≤ 32
      → All IsByte bytes
      → write_data accepts kind (digits_of kind) (length bytes) addr (bytes ++ more) file
        ≡ ok (file ++ (srec_line kind addr bytes ++ (newline ∷ [])))
  unfolding write_data srec_line
  write_data_ok kind addr bytes more file k small short h =
      rw
        (
          size,
          print_hex-eq-hex_digits 1 kind (omega arith) (omega arith) (omega arith),
          print_hex-eq-hex_digits 2 len (omega arith) (omega arith) (omega arith),
          print_hex-address kind addr k small,
          fprintf_unchecked_ok file _,
          write_bytes_ok bytes more _ h,
          srec_csum-append bytes more len addr,
          print_hex-eq-hex_digits 2 sum (omega arith) (omega (arith, sum-IsByte))
              (omega (arith, sum-IsByte)),
          fprintf_unchecked_ok _ _,
        )
        (simp append_assoc)
    where
      len : ℕ
      len = length bytes + kind + 2

      size : length bytes + digits_of kind / 2 + 1 ≡ len
      size = omega arith

      sum : ℕ
      sum = srec_csum bytes (length bytes) len addr

      sum-IsByte : sum < 256
      sum-IsByte = srec_csum-IsByte bytes (length bytes) len addr

  pub write_end_ok :
      (kind num : ℕ) (buf file : List ℕ)
      → IsKind kind
      → num < 65536
      → write_end accepts kind (digits_of kind) num buf file
        ≡ file ++ (count_line num ++ (newline ∷ (end_line kind ++ (newline ∷ []))))
  unfolding write_end count_line end_line
  write_end_ok kind num buf file k small =
      rw
        (
          wrap,
          size,
          print_hex-eq-hex_digits 4 num (omega arith) (omega arith) (omega arith),
          srec_csum-none buf 3 num,
          print_hex-eq-hex_digits 2 (srec_csum [] 0 3 num) (omega arith)
              (omega (arith, srec_csum-IsByte [] 0 3 num))
              (omega (arith, srec_csum-IsByte [] 0 3 num)),
          print_hex-eq-hex_digits 1 (10 - kind) (omega arith) (omega arith) (omega arith),
          print_hex-eq-hex_digits 2 (kind + 2) (omega arith) (omega arith) (omega arith),
          print_hex-address kind 0 k
              (by_kind (λ k. 0 < 256 ^ (k + 1)) (omega arith) (omega arith) (omega arith) kind k),
          srec_csum-none buf (kind + 2) 0,
          print_hex-eq-hex_digits 2 (srec_csum [] 0 (kind + 2) 0) (omega arith)
              (omega (arith, srec_csum-IsByte [] 0 (kind + 2) 0))
              (omega (arith, srec_csum-IsByte [] 0 (kind + 2) 0)),
          fprintf_unchecked_ok file _,
          fprintf_unchecked_ok _ _,
          fprintf_unchecked_ok _ _,
          fprintf_unchecked_ok _ _,
        )
        (simp append_assoc)
    where
      wrap : u16 num ≡ num
      wrap = omega arith

      size : digits_of kind / 2 + 1 ≡ kind + 2
      size = omega arith

-- What the loop writes from the address `addr` on, where `bytes` are still to come and `num`
-- records have been written.
unfoldable pub loop_text : ℕ → ℕ → ℕ → ℕ → List ℕ → List ℕ
loop_text zero stop num addr bytes =
    count_line num ++ (newline ∷ (end_line (data_rectype stop) ++ (newline ∷ [])))
loop_text (suc fuel) stop num addr bytes =
    let n = chunk_length stop addr in
    let rest = loop_text fuel stop (num + 1) (addr + n) (drop n bytes) in
    if ltb addr stop
    then srec_line (data_rectype stop) addr (take n bytes) ++ (newline ∷ rest)
    else count_line num ++ (newline ∷ (end_line (data_rectype stop) ++ (newline ∷ [])))
