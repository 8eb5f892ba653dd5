-- ===== src/Stdio/Lines.antt =====
-- fgets gives the lines of a file back one by one.
use stm8flash.Common.{ℕ, zero, suc, ◌+◌, ◌-◌, ◌≤◌, ◌<◌, ◌≡◌, ◌≢◌, refl, ap, ◌∙◌, ne→==_false}
use stm8flash.Common.{List, [], ◌∷◌, ◌++◌, some, arith, length, length-append}
use stm8flash.Common.{length-drop, drop, All}
use stm8flash.Stdio.{newline, take_line, fgets, strlen, store_line}

abbrev pub IsPlain : ℕ → Type 0
IsPlain c = (c ≢ 0) × (c ≢ newline)

take_line-line :
    (room : ℕ) (l rest : List ℕ)
    → All IsPlain l
    → length l < room
    → take_line room (l ++ (newline ∷ rest)) ≡ (l ++ (newline ∷ []), rest)
unfolding take_line
take_line-line zero l rest h e = absurd (omega arith)
take_line-line (suc room) [] rest h e = refl
take_line-line (suc room) (c ∷ l) rest h e =
    rw (ne→==_false c newline h.0.1, take_line-line room l rest h.1 (omega arith))

-- A line that fits the array is read whole, with its newline.
pub fgets-line :
    (size : ℕ) (l rest : List ℕ)
    → All IsPlain l
    → length l + 2 ≤ size
    → fgets size (l ++ (newline ∷ rest)) ≡ some (l ++ (newline ∷ []), rest)
unfolding fgets
fgets-line size [] rest h e = ap some (take_line-line (size - 1) [] rest h (omega arith))
fgets-line size (c ∷ l) rest h e = ap some (take_line-line (size - 1) (c ∷ l) rest h (omega arith))

take_line-shrinks : (room : ℕ) (file : List ℕ) → length (take_line room file).1 ≤ length file
unfolding take_line
take_line-shrinks zero file = omega arith
take_line-shrinks (suc room) [] = omega arith
take_line-shrinks (suc room) (c ∷ file) = ground (arith, take_line-shrinks room file)

take_line-lt :
    (room c : ℕ) (file : List ℕ) → length (take_line (suc room) (c ∷ file)).1 < length (c ∷ file)
unfolding take_line
take_line-lt room c file = ground (arith, take_line-shrinks room file)

-- Each call takes a character at least.
pub fgets-shrinks :
    (size : ℕ) (file line rest : List ℕ)
    → 2 ≤ size
    → fgets size file ≡ some (line, rest)
    → length rest < length file
unfolding fgets
fgets-shrinks size [] line rest h e = cc
fgets-shrinks (suc (suc room)) (c ∷ file) line rest h e =
    let one : suc (suc room) - 1 ≡ suc room = omega arith in
    ground (arith, one, take_line-lt room c file)
fgets-shrinks _ (c ∷ file) line rest h e = absurd (omega arith)

length-take_line : (room : ℕ) (file : List ℕ) → length (take_line room file).0 ≤ room
unfolding take_line
length-take_line zero file = omega arith
length-take_line (suc room) [] = omega arith
length-take_line (suc room) (c ∷ file) = ground (arith, length-take_line room file)

pub strlen-append : (l r : List ℕ) → All (λ c. c ≢ 0) l → strlen (l ++ (0 ∷ r)) ≡ length l
unfolding strlen
strlen-append [] r h = refl
strlen-append (c ∷ l) r h = rw (ne→==_false c 0 h.0, strlen) (ap suc (strlen-append l r h.1))

-- The array keeps its size.
pub length-store_line :
    (line buffer : List ℕ)
    → length line < length buffer
    → length (store_line line buffer) ≡ length buffer
unfolding store_line
length-store_line line buffer h =
    length-append line (0 ∷ drop (length line + 1) buffer)
    ∙ omega (arith, length-drop (length line + 1) buffer)

-- What is read leaves room for the NUL.
pub length-fgets :
    (size : ℕ) (file line rest : List ℕ)
    → 1 ≤ size
    → fgets size file ≡ some (line, rest)
    → length line < size
unfolding fgets
length-fgets size [] line rest h e = cc
length-fgets size (c ∷ file) line rest h e = ground (arith, length-take_line (size - 1) (c ∷ file))
