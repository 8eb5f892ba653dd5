-- ===== src/Stdio.antt =====
-- The C library functions that ihex.c, srec.c and main.c call, over lists of character codes:
-- printf of `%0wX`, sscanf of `%0wx` and of one literal character, fgets and strlen.
pub mod Print
pub mod Lines
pub mod Output
pub mod Bytes
use stm8flash.Common.{
  ℕ, zero, suc, ◌+◌, ◌-◌, ◌*◌, ◌/◌, ◌%◌, List, [], ◌∷◌, ◌++◌, Option, none, some,
}
use stm8flash.Common.{Bool, true, false, ◌&&◌, ◌||◌, leb, ltb, ◌==◌, if◌then◌else◌, u32, length}
use stm8flash.Common.{drop}

abbrev pub newline : ℕ
newline = 10

-- The upper-case digit of a value below 16.
unfoldable pub hex_digit : ℕ → ℕ
hex_digit d = if ltb d 10 then d + 48 else d + 55

-- The last `k` hexadecimal digits of `n`.
unfoldable pub hex_digits : ℕ → ℕ → List ℕ
hex_digits zero n = []
hex_digits (suc k) n = hex_digits k (n / 16) ++ (hex_digit (n % 16) ∷ [])

-- Takes at most `k` leading zeros off.
unfoldable pub strip_zeros : ℕ → List ℕ → List ℕ
strip_zeros zero s = s
strip_zeros (suc k) [] = []
strip_zeros (suc k) (c ∷ s) = elim (c == 48) [ true ↦ strip_zeros k s | false ↦ c ∷ s ]

-- `%0wX` of an unsigned int, which has at most 8 digits: at least `w` of them are written.
unfoldable pub print_hex : ℕ → ℕ → List ℕ
print_hex w n = strip_zeros (8 - w) (hex_digits 8 (u32 n))

-- isspace, in the C locale.
unfoldable pub is_space : ℕ → Bool
is_space c = c == 32 || (leb 9 c && leb c 13)

-- The value of a hexadecimal digit of either case.
unfoldable pub digit_value : ℕ → Option ℕ
digit_value c =
    if leb 48 c && leb c 57
    then some (c - 48)
    else if leb 65 c && leb c 70
    then some (c - 55)
    else if leb 97 c && leb c 102
    then some (c - 87)
    else none

unfoldable pub skip_space : List ℕ → List ℕ
unfolding is_space
skip_space [] = []
skip_space (c ∷ s) = elim (is_space c) [ true ↦ skip_space s | false ↦ c ∷ s ]

-- At most `w` digits, added to the value `acc` of those before; and the text behind them.
unfoldable pub scan_digits : ℕ → ℕ → List ℕ → ℕ × List ℕ
unfolding digit_value
scan_digits zero acc s = (acc, s)
scan_digits (suc w) acc [] = (acc, [])
scan_digits (suc w) acc (c ∷ s) = elim (digit_value c) [
  | none ↦ (acc, c ∷ s)
  | some d ↦ scan_digits w (acc * 16 + d) s
]

-- The digits behind a sign and a prefix: there has to be one, and the width to hold it.
unfoldable pub scan_number : ℕ → List ℕ → Option (ℕ × List ℕ)
unfolding scan_digits
scan_number zero s = none
scan_number (suc w) [] = none
scan_number (suc w) (c ∷ s) = elim (digit_value c) [
  | none ↦ none
  | some d ↦ some (scan_digits w d s)
]

-- A prefix `0x` counts as part of the width.
unfoldable pub scan_prefixed : ℕ → List ℕ → Option (ℕ × List ℕ)
unfolding scan_number
scan_prefixed w [] = none
scan_prefixed w (c ∷ []) = scan_number w (c ∷ [])
scan_prefixed w (c ∷ d ∷ s) =
    if c == 48 && (d == 120 || d == 88) && leb 2 w
    then scan_number (w - 2) s
    else scan_number w (c ∷ d ∷ s)

abbrev pub negate_value : Option (ℕ × List ℕ) → Option (ℕ × List ℕ)
negate_value none = none
negate_value (some (n, s)) = some (u32 (4294967296 - u32 n), s)

abbrev pub wrap_value : Option (ℕ × List ℕ) → Option (ℕ × List ℕ)
wrap_value none = none
wrap_value (some (n, s)) = some (u32 n, s)

unfoldable pub scan_signed : ℕ → List ℕ → Option (ℕ × List ℕ)
unfolding scan_prefixed
scan_signed w [] = none
scan_signed w (c ∷ s) =
    if c == 45 && leb 1 w
    then negate_value (scan_prefixed (w - 1) s)
    else wrap_value
        (if c == 43 && leb 1 w then scan_prefixed (w - 1) s else scan_prefixed w (c ∷ s))

-- `%0wx`: white space is skipped, and a sign and a prefix count as part of the width `w`. The
-- value is stored in an unsigned int. `none` is a matching failure or the end of the text.
unfoldable pub scan_hex : ℕ → List ℕ → Option (ℕ × List ℕ)
unfolding scan_signed skip_space
scan_hex w s = scan_signed w (skip_space s)

-- A character of the format that has to stand in the text as it is.
unfoldable pub scan_char : ℕ → List ℕ → Option (List ℕ)
scan_char k [] = none
scan_char k (c ∷ s) = if c == k then some s else none

-- strlen: the characters before the first NUL. A text that has none runs past its array: the
-- callers' arrays always hold one.
unfoldable pub strlen : List ℕ → ℕ
strlen [] = 0
strlen (c ∷ s) = elim (c == 0) [ true ↦ 0 | false ↦ suc (strlen s) ]

-- At most `room` characters, up to and with a newline; and what is left of the file.
unfoldable pub take_line : ℕ → List ℕ → List ℕ × List ℕ
take_line zero file = ([], file)
take_line (suc room) [] = ([], [])
take_line (suc room) (c ∷ file) =
    let (line, rest) = take_line room file in
    if c == newline then (c ∷ [], file) else (c ∷ line, rest)

-- `fgets(line, size, file)` leaves one place for the NUL; `none` is the end of the file.
unfoldable pub fgets : ℕ → List ℕ → Option (List ℕ × List ℕ)
unfolding take_line
fgets size [] = none
fgets size (c ∷ file) = some (take_line (size - 1) (c ∷ file))

-- The array that fgets has written to: what stood behind the NUL stays.
unfoldable pub store_line : List ℕ → List ℕ → List ℕ
store_line line buffer = line ++ (0 ∷ drop (length line + 1) buffer)
