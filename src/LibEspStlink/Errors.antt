-- ===== src/LibEspStlink/Errors.antt =====
-- The errors that error_check reports, by what the line brings.
use stm8flash.Common.{
  ℕ, zero, suc, ◌+◌, ◌≤◌, ◌<◌, ◌≡◌, ◌≢◌, refl, sym, subst, ap, ap₂, ◌∙◌, List, [], ◌∷◌, ◌++◌,
  Option, none, some, arith, ◌<<◌,
}
use stm8flash.Common.{
  true, false, ◌==◌, Bool-cases, inl, inr, le→ltb_false, lt→ltb, ne→==_false, length, take, drop,
  length-take, length-drop, length-append,
}
use stm8flash.Programmer.Ends.{Ends}
use stm8flash.LibEspStlink.{Serial, Link, fill_loop, check_status, error_check, read_code, received}
use stm8flash.LibEspStlink.Answer.{Never, Delivers, one_byte}

-- Two bytes that wait, of which the line may give the first only.
abbrev pub ComesApart : {S : Type 0} → Serial S → (S → List ℕ) → ℕ → ℕ → List ℕ → Type 0
ComesApart {S = S} serial pending h l p =
    (s : S) × (pending s ≡ h ∷ l ∷ p) × ((serial.read 2 s).0 ≡ some (h ∷ []))

-- The codes of libespstlink.h, as the documented meaning of what the line brings: nothing at all, a
-- byte that is not the command or an answer that breaks off or has an unknown second byte, the
-- device's own error code, or a code that breaks off or whose bytes come apart.
pub data Reports {S : Type 0} (serial : Serial S) (pending : S → List ℕ) (command size : ℕ)
    : List ℕ → ℕ → ℕ → Type 0 where
  no_answer : Reports serial pending command size [] 1 0
  other_command :
      {b : ℕ} {p : List ℕ} → b ≢ command → Reports serial pending command size (b ∷ p) 2 0
  breaks_off : Reports serial pending command size (command ∷ []) 2 0
  too_short :
      {p : List ℕ} → length p < size → Reports serial pending command size (command ∷ 0 ∷ p) 2 0
  unknown_status :
      {c : ℕ} {p : List ℕ}
      → c ≢ 0
      → c ≢ 255
      → Reports serial pending command size (command ∷ c ∷ p) 2 0
  code_cut :
      {p : List ℕ} → length p < 2 → Reports serial pending command size (command ∷ 255 ∷ p) 2 0
  code_apart :
      {h l : ℕ} {p : List ℕ}
      → ComesApart serial pending h l p
      → Reports serial pending command size (command ∷ 255 ∷ h ∷ l ∷ p) 2 0
  device_error :
      {h l : ℕ} {p : List ℕ}
      → Reports serial pending command size (command ∷ 255 ∷ h ∷ l ∷ p) 3 ((h << 8) + l)

module _ {S : Type 0} (serial : Serial S) (pending : S → List ℕ)
    (delivers : Delivers serial pending)
    (silent : (n : ℕ) (s : S)
      → pending s ≡ []
      → (received (serial.read n s).0 ≡ []) × (pending (serial.read n s).1 ≡ [])) where
  -- The return of 0, with the error set.
  abbrev pub IsReported : ℕ → ℕ → List ℕ → Option (List ℕ) → Link S → Type 0
  IsReported command size p r t =
      (r ≡ none) × Reports serial pending command size p t.error.code t.error.device_code

  -- The buffer is not filled.
  fill_loop-short :
      (fuel command size capacity : ℕ) (buf rest all : List ℕ) (s : Link S)
      → size ≤ fuel + length buf
      → pending s.line ≡ rest
      → length buf + length rest < size
      → size ≤ capacity
      → length all < size
      → Ends
          (IsReported command size (command ∷ 0 ∷ all))
          Never
          (fill_loop serial fuel size capacity buf s)
  unfolding fill_loop
  fill_loop-short zero command size capacity buf rest all s enough left short room few =
      absurd (omega arith)
  fill_loop-short (suc fuel) command size capacity buf [] all s enough left short room few =
      let (nothing, last) = silent size s.line left in
      rw (lt→ltb (length buf) size (omega arith), nothing) (refl, too_short few)
  fill_loop-short (suc fuel) command size capacity buf (b ∷ rest) all s enough left short room few =
      let (k, some_bytes, small, within, bytes, behind) =
        delivers.piece size s.line (b ∷ rest) (omega arith) (omega arith) left in
      let piece : List ℕ = take k (b ∷ rest) in
      let piece_size : length piece ≡ k = omega (arith, length-take k (b ∷ rest)) in
      let now_size : length (buf ++ piece) ≡ length buf + k =
        length-append buf piece ∙ ap (λ n. length buf + n) piece_size in
      let line : S = (serial.read size s.line).1 in
      let not_empty : (length piece == 0) ≡ false = ne→==_false (length piece) 0 (omega arith) in
      rw
        (
          lt→ltb (length buf) size (omega arith),
          bytes,
          not_empty,
          le→ltb_false capacity (length (buf ++ piece)) (omega arith),
        )
        (fill_loop-short fuel command size capacity (buf ++ piece) (drop k (b ∷ rest)) all
          (record s { line = line }) (omega arith) behind
          (omega (arith, length-drop k (b ∷ rest), now_size)) room few)

  -- The code behind 0xFF.
  read_code-Reports :
      (command size : ℕ) (p : List ℕ) (s : Link S)
      → pending s.line ≡ p
      → Ends (IsReported command size (command ∷ 255 ∷ p)) Never (read_code serial s)
  unfolding read_code
  read_code-Reports command size [] s left =
      let (nothing, last) = silent 2 s.line left in rw nothing (refl, code_cut (omega arith))
  read_code-Reports command size (h ∷ []) s left =
      let (k, some_bytes, small, within, bytes, behind) =
        delivers.piece 2 s.line (h ∷ []) (omega arith) (omega arith) left in
      let one : k ≡ 1 = omega arith in rw (bytes, one) (refl, code_cut (omega arith))
  read_code-Reports command size (h ∷ l ∷ p) s left =
      let (k, some_bytes, small, within, bytes, behind) =
        delivers.piece 2 s.line (h ∷ l ∷ p) (omega arith) (omega arith) left in
      elim (Bool-cases (k == 1)) [
        | inl single ↦
            let one : k ≡ 1 = ground arith in
            let first : (serial.read 2 s.line).0 ≡ some (h ∷ []) =
              bytes ∙ ap (λ n. some (take n (h ∷ l ∷ p))) one in
            rw first (refl, code_apart (s.line, left, first))
        | inr more ↦ let two : k ≡ 2 = ground arith in rw (bytes, two) (refl, device_error)
      ]

  check_status-Reports :
      (command c size capacity : ℕ) (p : List ℕ) (s : Link S)
      → pending s.line ≡ p
      → size ≤ capacity
      → (c ≡ 0 → length p < size)
      → Ends
          (IsReported command size (command ∷ c ∷ p))
          Never
          (check_status serial command c size capacity s)
  unfolding check_status
  check_status-Reports command c size capacity p s left room short = elim (Bool-cases (c == 0)) [
    | inl finished ↦
        let none_left : 0 ≡ c = ground arith in
        let few : length p < size = short (sym none_left) in
        subst
          (λ d.
            Ends (IsReported command size (command ∷ d ∷ p)) Never
              (check_status serial command d size capacity s))
          none_left
          (fill_loop-short size command size capacity [] p p s (omega arith) left (omega arith) room
            few)
    | inr failed ↦ elim (Bool-cases (c == 0xff)) [
      | inl reported_code ↦
          let all_ones : 255 ≡ c = ground arith in
          subst
            (λ d.
              Ends (IsReported command size (command ∷ d ∷ p)) Never
                (check_status serial command d size capacity s))
            all_ones (read_code-Reports command size p s left)
      | inr other ↦
          let not_zero : c ≢ 0 = ground arith in
          let not_ones : c ≢ 255 = ground arith in
          rw (failed, other) (refl, unknown_status not_zero not_ones)
    ]
  ]

  matched-Reports :
      (command size capacity : ℕ) (p : List ℕ) (s : Link S)
      → pending s.line ≡ command ∷ p
      → size ≤ capacity
      → ((payload : List ℕ) → p ≡ 0 ∷ payload → length payload < size)
      → Ends
          (IsReported command size (command ∷ p))
          Never
          (error_check serial command size capacity s)
  unfolding error_check
  matched-Reports command size capacity [] s left room short =
      let (bytes, behind) = one_byte serial pending delivers s.line command [] left in
      let same : (command == command) ≡ true = ground arith in
      let (nothing, last) = silent 1 (serial.read 1 s.line).1 behind in
      rw (bytes, same, nothing) (refl, breaks_off)
  matched-Reports command size capacity (c ∷ p) s left room short =
      let (bytes, behind) = one_byte serial pending delivers s.line command (c ∷ p) left in
      let same : (command == command) ≡ true = ground arith in
      let (status, last) = one_byte serial pending delivers (serial.read 1 s.line).1 c p behind in
      rw (bytes, same, status)
        (check_status-Reports command c size capacity p
          (record s { line = (serial.read 1 (serial.read 1 s.line).1).1 }) last room
          (λ e. short p (ap (λ d. d ∷ p) e)))

  -- If the line is silent behind what it brings, and this is not the command, a 0 and as many bytes
  -- as are expected, error_check returns 0 and sets the error: code 1 if nothing came, 3 with the
  -- device's own code if it sent a 0xFF and that code, and 2 if the first byte is not the command,
  -- the second is neither 0 nor 0xFF, or the answer or the code breaks off. A code of two bytes is
  -- reported as broken off only if the line, at a state where both wait, gives the first of them
  -- alone. The pieces may have any lengths.
  pub error_check-Reports :
      (command size capacity : ℕ) (p : List ℕ) (s : Link S)
      → pending s.line ≡ p
      → size ≤ capacity
      → ((payload : List ℕ) → p ≡ command ∷ 0 ∷ payload → length payload < size)
      → Ends (IsReported command size p) Never (error_check serial command size capacity s)
  unfolding error_check
  error_check-Reports command size capacity [] s left room short =
      let (nothing, last) = silent 1 s.line left in rw nothing (refl, no_answer)
  error_check-Reports command size capacity (b ∷ p) s left room short =
      let (bytes, behind) = one_byte serial pending delivers s.line b p left in
      elim (Bool-cases (b == command)) [
        | inr other ↦
            let different : b ≢ command = ground arith in
            rw (bytes, other) (refl, other_command different)
        | inl same ↦
            let equal : command ≡ b = ground arith in
            subst
              (λ d.
                Ends (IsReported command size (d ∷ p)) Never
                  (error_check serial command size capacity s))
              equal
              (matched-Reports command size capacity p s (left ∙ ap (λ d. d ∷ p) (sym equal)) room
                (λ payload e. short payload (ap₂ (λ d q. d ∷ q) (sym equal) e)))
      ]
