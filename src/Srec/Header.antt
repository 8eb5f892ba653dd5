-- ===== src/Srec/Header.antt =====
-- The head of a record of srec.c, as sscanf reads it in srec_read.
use stm8flash.Common.{ℕ, ◌+◌, ◌-◌, ◌*◌, ◌^◌, ◌<◌, ◌≡◌, ap, ◌∙◌}
use stm8flash.Common.{List, ◌∷◌, ◌++◌, Bool, true, some, arith}
use stm8flash.Common.{u32, ◌>>◌}
use stm8flash.Stdio.{hex_digits, scan_digits, scan_hex, scan_char}
use stm8flash.Stdio.Print.{
  scan_hex-byte, scan_hex-digit, scan_hex-hex_digits, scan_digits-hex_digits,
}
use stm8flash.Srec.Text.{IsKind, digits_of, by_kind}
use stm8flash.Srec.Reader.{Reader, Chunk, scan_header}

-- sscanf reads eight digits of the address: the bytes of data behind a shorter one are shifted out
-- again.
pub scan_address :
    (kind addr d e : ℕ) (s : List ℕ)
    → IsKind kind
    → addr < 256 ^ (kind + 1)
    → d < 256
    → e < 256
    → (value : ℕ) × (rest : List ℕ) × (scan_hex 8
          (hex_digits (digits_of kind) addr ++ (hex_digits 2 d ++ (hex_digits 2 e ++ s)))
        ≡ some (value, rest))
      × (value >> (8 * (3 - kind)) ≡ addr)
unfolding scan_digits
scan_address kind addr d e s k =
    by_kind
      (λ kind.
        addr < 256 ^ (kind + 1)
        → d < 256
        → e < 256
        → (value : ℕ) × (rest : List ℕ) × (scan_hex 8
              (hex_digits (digits_of kind) addr ++ (hex_digits 2 d ++ (hex_digits 2 e ++ s)))
            ≡ some (value, rest))
          × (value >> (8 * (3 - kind)) ≡ addr))
      (λ h hd he. (
        u32 ((addr * 256 + d) * 256 + e),
        s,
        scan_hex-hex_digits 2 4 addr (hex_digits 2 d ++ (hex_digits 2 e ++ s)) h
            ∙ rw
                (
                  scan_digits-hex_digits 2 2 addr d (hex_digits 2 e ++ s) hd,
                  scan_digits-hex_digits 2 0 (addr * 16 ^ 2 + d) e s he,
                )
                (ap (λ t. some (u32 t, s)) (omega arith)),
        omega arith,
      ))
      (λ h hd he. (
        u32 (addr * 256 + d),
        hex_digits 2 e ++ s,
        scan_hex-hex_digits 4 2 addr (hex_digits 2 d ++ (hex_digits 2 e ++ s)) h
            ∙ rw (scan_digits-hex_digits 2 0 addr d (hex_digits 2 e ++ s) hd)
                (ap (λ t. some (u32 t, hex_digits 2 e ++ s)) (omega arith)),
        omega arith,
      ))
      (λ h hd he. (
        u32 addr,
        hex_digits 2 d ++ (hex_digits 2 e ++ s),
        scan_hex-hex_digits 6 0 addr (hex_digits 2 d ++ (hex_digits 2 e ++ s)) h,
        omega arith,
      ))
      kind k

pub scan_header_lem :
    (kind len value : ℕ) (r t : List ℕ)
    → kind < 16
    → len < 256
    → scan_hex 8 r ≡ some (value, t)
    → scan_header (b'S' ∷ (hex_digits 1 kind ++ (hex_digits 2 len ++ r)))
      ≡ some (record { kind = kind; len = len; addr = value })
unfolding scan_header scan_char
scan_header_lem kind len value r t hk hl e =
    rw (scan_hex-digit kind (hex_digits 2 len ++ r) hk, scan_hex-byte len r hl, e)

abbrev pub reader : List ℕ → ℕ → ℕ → ℕ → Bool → ℕ → ℕ → List ℕ → Reader
reader line count greatest records found expected temp buf = record {
  line = line;
  line_no = count;
  greatest_addr = greatest;
  number_of_records = records;
  found_s5_rec = found;
  expected_data_records = expected;
  temp = temp;
  buf = buf;
}

abbrev pub data_chunk : ℕ → ℕ → ℕ → Chunk
data_chunk kind addr n = record {
  chunk_type = kind;
  chunk_addr = addr;
  chunk_len = n + kind + 2;
  data_len = n;
  data_record = true;
}
