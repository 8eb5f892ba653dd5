-- ===== src/Srec/Reader.antt =====
-- srec.c: srec_read, from the lines of the file into the buffer.
use stm8flash.Common.{ℕ, zero, suc, ◌+◌, ◌-◌, ◌*◌, ◌/◌, List, [], ◌∷◌, Option, none, some}
use stm8flash.Common.{
  Bool, true, false, ltb, ◌==◌, not, ◌&&◌, ◌||◌, if◌then◌else◌, drop, set, length,
}
use stm8flash.Common.{u8, u32, sub32, ◌>>◌}
use stm8flash.ByteUtils.{lo, hi, ex, eh}
use stm8flash.Stdio.{scan_char, scan_hex, fgets, store_line}

-- `returned n buf` is the return value, as the bit pattern of an int, with the buffer. The others
-- up to `count_mismatch` are the messages of ERROR2, with the numbers that they print, behind which
-- the program exits with -1. `fault` is an access outside an array. `stuck` is the model's: the
-- fuel ran out.
pub data ReadResult : Type 0 where
  returned : ℕ → List ℕ → ReadResult
  parse_error : ℕ → ReadResult
  s5_error : ℕ → ReadResult
  byte_error : ℕ → ℕ → ReadResult
  below_start : ℕ → ℕ → ReadResult
  past_end : ℕ → ℕ → ℕ → ReadResult
  no_checksum : ℕ → ℕ → ReadResult
  bad_checksum : ℕ → ReadResult
  count_mismatch : ℕ → ℕ → ReadResult
  fault stuck : ReadResult

-- The static array `line` and the variables that live across lines.
pub record Reader : Type 0 where
  pub line : List ℕ
  pub line_no : ℕ
  pub greatest_addr : ℕ
  pub number_of_records : ℕ
  pub found_s5_rec : Bool
  pub expected_data_records : ℕ
  pub temp : ℕ
  pub buf : List ℕ

-- The variables of a line: its type, address and length of data, whether it is a data record, and
-- the length that it states.
pub record Chunk : Type 0 where
  pub chunk_type : ℕ
  pub chunk_addr : ℕ
  pub chunk_len : ℕ
  pub data_len : ℕ
  pub data_record : Bool

-- The three numbers at the head of a record, as they are read.
pub record Header : Type 0 where
  pub kind : ℕ
  pub len : ℕ
  pub addr : ℕ

-- What one round of the loop over the bytes does: return, or go on.
pub data Round : Type 0 where
  halt : ReadResult → Round
  next : Reader → Round

-- What the loop over the bytes comes to: a return, or the checksum and the variables behind it.
pub data Sum : Type 0 where
  halted : ReadResult → Sum
  summed : ℕ → Reader → Sum

-- What a line does: return, or go on with the next.
pub data Flow : Type 0 where
  stop : ReadResult → Flow
  go : Reader → Flow

infixl 5 ◌>>=◌
abbrev pub ◌>>=◌ {ℓ κ} : {A : Type ℓ} {B : Type κ} → Option A → (A → Option B) → Option B
none >>= f = none
some a >>= f = f a

unfoldable pub is_data_type : ℕ → Bool
is_data_type kind = kind == 1 || (kind == 2 || kind == 3)

-- `sscanf(line, "S%01x%02x%08x", …)`, where all three are stored.
unfoldable pub scan_header : List ℕ → Option Header
scan_header line = do
  s ← scan_char b'S' line
  (kind, s) ← scan_hex 1 s
  (len, s) ← scan_hex 2 s
  (addr, s) ← scan_hex 8 s
  some (record { kind = kind; len = len; addr = addr })

-- `sscanf(line, "%c", &temp)`: an empty text leaves `temp` as it was.
unfoldable pub first_char : List ℕ → ℕ → ℕ
first_char [] temp = temp
first_char (c ∷ line) temp = if c == 0 then temp else c

-- A line whose header cannot be read is skipped unless it begins with an S.
unfoldable pub skip_line : Reader → Flow
unfolding first_char
skip_line r =
    let temp = first_char r.line r.temp in
    if temp == b'S' then stop (parse_error r.line_no) else go (record r { temp = temp })

-- The checksum over the length and the address.
unfoldable pub header_sum : ℕ → ℕ → ℕ
header_sum len addr = u32 (len + lo addr + hi addr + ex addr + eh addr)

-- `2*(chunk_type+3+data_len)`.
abbrev pub end_index : Chunk → ℕ
end_index k = u32 (2 * u32 (k.chunk_type + 3 + k.data_len))

-- The count of the data records, and the checksum at index `i`.
unfoldable pub check_sum : Chunk → ℕ → ℕ → Reader → Flow
check_sum k i sum r =
    let r' : Reader = record r {
      number_of_records =
          if k.data_record then u32 (r.number_of_records + 1) else r.number_of_records;
    } in
    if ltb i (length r.line)
    then elim (scan_hex 2 (drop i r.line)) [
      | none ↦ stop (no_checksum r.line_no i)
      | some (byte, _) ↦ if u8 (sum + byte) == 255 then go r' else stop (bad_checksum r.line_no)
    ]
    else stop fault

module _ (start end : ℕ) where
  -- The store of a byte, with the index computed in unsigned int.
  unfoldable pub store_byte : Chunk → ℕ → ℕ → Reader → Round
  store_byte k i byte r =
      let top = u32 (k.chunk_addr + k.data_len) in
      let index = u32 (sub32 k.chunk_addr start + sub32 i 8 / 2) in
      if ltb index (length r.buf)
      then next (record r {
        greatest_addr = if ltb r.greatest_addr top then top else r.greatest_addr;
        buf = set r.buf index (u8 byte);
      })
      else halt fault

  -- The body of the loop, behind the addition to the checksum.
  unfoldable pub data_byte : Chunk → ℕ → ℕ → Reader → Round
  unfolding store_byte
  data_byte k i byte r =
      if not k.data_record
      then next r
      else if ltb k.chunk_addr start
      then halt (below_start k.chunk_addr r.line_no)
      else if ltb end (u32 (k.chunk_addr + k.data_len))
      then halt (past_end k.chunk_addr k.data_len r.line_no)
      else store_byte k i byte r

  -- The loop over the digits; the list is the line from index `i` on.
  unfoldable pub data_loop : Chunk → ℕ → List ℕ → ℕ → ℕ → Reader → Sum
  unfolding scan_hex data_byte
  data_loop k limit [] i sum r = if ltb i limit then halted fault else summed sum r
  data_loop k limit (c ∷ []) i sum r = if ltb i limit then halted fault else summed sum r
  data_loop k limit (c ∷ d ∷ rest) i sum r = elim (ltb i limit) [
    | false ↦ summed sum r
    | true ↦ elim (scan_hex 2 (c ∷ d ∷ rest)) [
      | none ↦ halted (byte_error r.line_no i)
      | some (byte, _) ↦ elim (data_byte k i byte r) [
        | halt e ↦ halted e
        | next r' ↦ data_loop k limit rest (i + 2) (u32 (sum + byte)) r'
      ]
    ]
  ]

  unfoldable pub read_chunk : Chunk → Reader → Flow
  read_chunk k r =
      let first = 2 * (k.chunk_type + 3) in
      elim (data_loop k (end_index k) (drop first r.line) first
        (header_sum k.chunk_len k.chunk_addr) r) [
          | halted e ↦ stop e
          | summed sum r' ↦ check_sum k (end_index k) sum r'
        ]

  -- A record whose header has been read, by its type.
  unfoldable pub read_record : Header → Reader → Flow
  unfolding is_data_type
  read_record h r =
      if h.kind == 0 || h.kind == 4
      then go r
      else if h.kind == 5
      then (if not (h.len == 3)
          then stop (s5_error r.line_no)
          else read_chunk
              (record {
                chunk_type = 1;
                chunk_addr = h.addr >> 8;
                chunk_len = h.len;
                data_len = 0;
                data_record = false;
              })
              (record r { found_s5_rec = true; expected_data_records = h.addr >> 8 }))
      else if is_data_type h.kind
      then read_chunk
          (record {
            chunk_type = h.kind;
            chunk_addr = h.addr >> (8 * (3 - h.kind));
            chunk_len = h.len;
            data_len = sub32 h.len (h.kind + 2);
            data_record = true;
          })
          r
      else go r

  -- The body of the loop over the lines; `text` is what fgets has read.
  unfoldable pub read_line : List ℕ → Reader → Flow
  read_line text r =
      let r' : Reader = record r { line = store_line text r.line; line_no = u32 (r.line_no + 1) } in
      elim (scan_header r'.line) [ none ↦ skip_line r' | some h ↦ read_record h r' ]

  -- What follows the loop: the number of data records is compared, if an S5 record gave it.
  unfoldable pub finish : Reader → ReadResult
  finish r =
      if r.found_s5_rec && not (r.number_of_records == r.expected_data_records)
      then count_mismatch r.expected_data_records r.number_of_records
      else returned (sub32 r.greatest_addr start) r.buf

  -- The loop over the lines. Each takes a character of the file at least, so as many rounds as it
  -- has characters are enough.
  unfoldable pub read_loop : ℕ → List ℕ → Reader → ReadResult
  read_loop zero file r = elim (fgets 516 file) [ none ↦ finish r | some _ ↦ stuck ]
  read_loop (suc fuel) file r = elim (fgets 516 file) [
    | none ↦ finish r
    | some (text, rest) ↦ elim (read_line text r) [ stop e ↦ e | go r' ↦ read_loop fuel rest r' ]
  ]

  -- `line` is what the static array holds when the function is called.
  unfoldable pub srec_read : List ℕ → List ℕ → List ℕ → ReadResult
  srec_read line file buf = read_loop (length file) file (record {
    line = line;
    line_no = 0;
    greatest_addr = 0;
    number_of_records = 0;
    found_s5_rec = false;
    expected_data_records = 0;
    temp = 32;
    buf = buf;
  })
