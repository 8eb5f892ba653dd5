-- ===== src/Ihex/Reader.antt =====
-- ihex.c: ihex_read, from the lines of the file into the buffer.
use stm8flash.Common.{ℕ, zero, suc, ◌+◌, ◌-◌, ◌*◌, ◌/◌, ◌%◌, List, [], ◌∷◌, Option, none, some}
use stm8flash.Common.{true, false, leb, ltb, ◌==◌, not, if◌then◌else◌, drop, set, get_elem?}
use stm8flash.Common.{length, u8, u32, sub32}
use stm8flash.Stdio.{scan_char, scan_hex, strlen, fgets, store_line}

-- `returned n buf` is the return value, as the bit pattern of an int, with the buffer. The next
-- four are the error messages, with line_no; they return -1. `fault` is an access outside an
-- array. `stuck` is the model's: the fuel ran out.
pub data ReadResult : Type 0 where
  returned : ℕ → List ℕ → ReadResult
  parse_error : ℕ → ReadResult
  byte_error : ℕ → ℕ → ReadResult
  below_start : ℕ → ReadResult
  past_end : ℕ → ReadResult
  fault stuck : ReadResult

-- The static array `line` and the variables that live across lines.
pub record Reader : Type 0 where
  pub line : List ℕ
  pub line_no : ℕ
  pub greatest_addr : ℕ
  pub offset : ℕ
  pub buf : List ℕ

-- The three numbers at the head of a record.
pub record Header : Type 0 where
  pub chunk_len : ℕ
  pub chunk_addr : ℕ
  pub chunk_type : ℕ

-- What one round of a loop does: leave it by `break`, return, or go on.
pub data Round : Type 0 where
  leave : Round
  halt : ReadResult → Round
  next : Reader → Round

-- What a line does: return, or go on with the next.
pub data Flow : Type 0 where
  stop : ReadResult → Flow
  go : Reader → Flow

-- The attempt to take a carriage return off the end of the line.
unfoldable pub strip_cr : List ℕ → List ℕ
strip_cr line = elim (get_elem? line (strlen line)) [
  | none ↦ line
  | some c ↦ if c == 13 then set line (strlen line) 0 else line
]

infixl 5 ◌>>=◌
abbrev pub ◌>>=◌ {ℓ κ} : {A : Type ℓ} {B : Type κ} → Option A → (A → Option B) → Option B
none >>= f = none
some a >>= f = f a

-- `sscanf(line, ":%02x%04x%02x", …)`, where all three are stored.
unfoldable pub scan_header : List ℕ → Option Header
unfolding scan_char scan_hex
scan_header line = do
  s ← scan_char b':' line
  (len, s) ← scan_hex 2 s
  (addr, s) ← scan_hex 4 s
  (kind, s) ← scan_hex 2 s
  some (record { chunk_len = len; chunk_addr = addr; chunk_type = kind })

abbrev scaled : ℕ → Option (ℕ × List ℕ) → Option ℕ
scaled unit none = none
scaled unit (some (n, s)) = some (u32 (n * unit))

-- Extended segment (2) and extended linear (4) address records set the offset; `none` where the
-- number cannot be read.
unfoldable pub scan_offset : ℕ → ℕ → List ℕ → Option ℕ
unfolding scan_hex
scan_offset kind offset line =
    if kind == 2
    then scaled 16 (scan_hex 4 (drop 9 line))
    else if kind == 4
    then scaled 65536 (scan_hex 4 (drop 9 line))
    else some offset

-- `strlen(line) - 1` in size_t.
abbrev pub last_index : List ℕ → ℕ
last_index line = (strlen line + 18446744073709551615) % 18446744073709551616

module _ (start end : ℕ) where
  -- The store of a byte, with the index computed in unsigned int.
  unfoldable pub store_byte : Header → ℕ → ℕ → Reader → Round
  store_byte h i byte r =
      let top = u32 (h.chunk_addr + r.offset + h.chunk_len) in
      let index = u32 (sub32 (h.chunk_addr + r.offset) start + (i - 9) / 2) in
      if ltb index (length r.buf)
      then next (record r {
        greatest_addr = if ltb r.greatest_addr top then top else r.greatest_addr;
        buf = set r.buf index (u8 byte);
      })
      else halt fault

  -- The body of the loop over the digits of a line, behind the call of sscanf.
  unfoldable pub data_byte : Header → ℕ → ℕ → Reader → Round
  unfolding store_byte
  data_byte h i byte r =
      if not (h.chunk_type == 0)
      then leave
      else if leb h.chunk_len ((i - 9) / 2)
      then leave
      else if ltb (u32 (h.chunk_addr + r.offset)) start
      then halt (below_start r.line_no)
      else if ltb end (u32 (h.chunk_addr + r.offset + h.chunk_len))
      then halt (past_end r.line_no)
      else store_byte h i byte r

  -- The loop over the digits; the list is the line from index `i` on, and `limit` is
  -- `strlen(line) - 1`.
  unfoldable pub data_loop : Header → ℕ → List ℕ → ℕ → Reader → Flow
  unfolding scan_hex data_byte
  data_loop h limit [] i r = if ltb i limit then stop fault else go r
  data_loop h limit (c ∷ []) i r = if ltb i limit then stop fault else go r
  data_loop h limit (c ∷ d ∷ rest) i r = elim (ltb i limit) [
    | false ↦ go r
    | true ↦ elim (scan_hex 2 (c ∷ d ∷ rest)) [
      | none ↦ stop (byte_error r.line_no i)
      | some (byte, _) ↦ elim (data_byte h i byte r) [
        | leave ↦ go r
        | halt e ↦ stop e
        | next r' ↦ data_loop h limit rest (i + 2) r'
      ]
    ]
  ]

  -- A record whose header has been read.
  unfoldable pub read_record : Header → Reader → Flow
  read_record h r = elim (scan_offset h.chunk_type r.offset r.line) [
    | none ↦ stop (parse_error r.line_no)
    | some offset ↦ data_loop h (last_index r.line) (drop 9 r.line) 9 (record r { offset = offset })
  ]

  -- The body of the loop over the lines; `text` is what fgets has read.
  unfoldable pub read_line : List ℕ → Reader → Flow
  read_line text r =
      let r' : Reader = record r {
        line = strip_cr (store_line text r.line);
        line_no = u32 (r.line_no + 1);
      } in
      elim (scan_header r'.line) [
        | none ↦ stop (parse_error r'.line_no)
        | some h ↦ read_record h r'
      ]

  -- The loop over the lines. Each takes a character of the file at least, so as many rounds as it
  -- has characters are enough.
  unfoldable pub read_loop : ℕ → List ℕ → Reader → ReadResult
  unfolding fgets read_line
  read_loop zero file r = elim (fgets 523 file) [
    | none ↦ returned (sub32 r.greatest_addr start) r.buf
    | some _ ↦ stuck
  ]
  read_loop (suc fuel) file r = elim (fgets 523 file) [
    | none ↦ returned (sub32 r.greatest_addr start) r.buf
    | some (text, rest) ↦ elim (read_line text r) [ stop e ↦ e | go r' ↦ read_loop fuel rest r' ]
  ]

  -- `line` is what the static array holds when the function is called.
  unfoldable pub ihex_read : List ℕ → List ℕ → List ℕ → ReadResult
  unfolding read_loop
  ihex_read line file buf =
      read_loop (length file) file
        (record { line = line; line_no = 0; greatest_addr = 0; offset = 0; buf = buf })
