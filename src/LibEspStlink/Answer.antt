-- ===== src/LibEspStlink/Answer.antt =====
-- The answers that error_check takes from the line.
use stm8flash.Common.{
  ℕ, zero, suc, ◌+◌, ◌≤◌, ◌≡◌, refl, sym, subst, ap, ◌∙◌, List, [], ◌∷◌, ◌++◌, append-nil,
  append_assoc, Option, some, arith,
}
use stm8flash.Common.{
  true, false, ◌==◌, le→ltb_false, lt→ltb, ne→==_false, length, take, drop, length-take,
  length-drop, length-append, take-append-drop,
}
use stm8flash.Programmer.{Message}
use stm8flash.Programmer.Ends.{Ends}
use stm8flash.LibEspStlink.{Serial, Link, fill_loop, check_status, error_check}

abbrev pub Never : {S : Type 0} → Message → S → Type 0
Never message s = ⊥

-- A line on which `pending` are the bytes that the device has sent or is about to send: a read for
-- `n` bytes gives some of them, one at least and `n` at most, in their order, and nothing else.
pub record Delivers {S : Type 0} (serial : Serial S) (pending : S → List ℕ) : Type 0 where
  pub piece :
      (n : ℕ) (s : S) (p : List ℕ)
      → 1 ≤ n
      → 1 ≤ length p
      → pending s ≡ p
      → (k : ℕ) × (1 ≤ k)
        × (k ≤ n)
        × (k ≤ length p)
        × ((serial.read n s).0 ≡ some (take k p))
        × (pending (serial.read n s).1 ≡ drop k p)

module _ {S : Type 0} (serial : Serial S) (pending : S → List ℕ)
    (delivers : Delivers serial pending) where
  pub one_byte :
      (s : S) (b : ℕ) (rest : List ℕ)
      → pending s ≡ b ∷ rest
      → ((serial.read 1 s).0 ≡ some (b ∷ [])) × (pending (serial.read 1 s).1 ≡ rest)
  one_byte s b rest left =
      let (k, some_byte, few, within, bytes, behind) =
        delivers.piece 1 s (b ∷ rest) (omega arith) (omega arith) left in
      let one : k ≡ 1 = omega arith in
      (bytes ∙ ap (λ n. some (take n (b ∷ rest))) one, behind ∙ ap (λ n. drop n (b ∷ rest)) one)

-- `observed` is anything that reading from the line does not change.
module _ {S M : Type 0} (serial : Serial S) (pending : S → List ℕ)
    (delivers : Delivers serial pending) (observed : S → M)
    (kept : (n : ℕ) (s : S) → observed (serial.read n s).1 ≡ observed s) where
  -- The whole answer was read, and the line is empty; the version and the last error are kept.
  abbrev pub IsAnswer : List ℕ → M → Link S → Option (List ℕ) → Link S → Type 0
  IsAnswer bytes o s r t =
      (r ≡ some bytes)
      × (pending t.line ≡ [])
      × (t.error ≡ s.error)
      × (t.version ≡ s.version)
      × (observed t.line ≡ o)

  fill_loop-IsAnswer :
      (fuel size capacity : ℕ) (buf rest : List ℕ) (o : M) (s : Link S)
      → observed s.line ≡ o
      → length rest ≤ fuel
      → pending s.line ≡ rest
      → length buf + length rest ≡ size
      → size ≤ capacity
      → Ends (IsAnswer (buf ++ rest) o s) Never (fill_loop serial fuel size capacity buf s)
  unfolding fill_loop
  fill_loop-IsAnswer zero size capacity buf [] o s same enough left total room =
      rw (le→ltb_false (length buf) size (omega arith))
        (ap some (sym (append-nil buf)), left, refl, refl, same)
  fill_loop-IsAnswer zero size capacity buf (b ∷ rest) o s same enough left total room =
      absurd (omega arith)
  fill_loop-IsAnswer (suc fuel) size capacity buf [] o s same enough left total room =
      rw (le→ltb_false (length buf) size (omega arith))
        (ap some (sym (append-nil buf)), left, refl, refl, same)
  fill_loop-IsAnswer (suc fuel) size capacity buf (b ∷ rest) o s same enough left total room =
      let (k, some_bytes, few, within, bytes, behind) =
        delivers.piece size s.line (b ∷ rest) (omega arith) (omega arith) left in
      let piece : List ℕ = take k (b ∷ rest) in
      let piece_size : length piece ≡ k = omega (arith, length-take k (b ∷ rest)) in
      let now_size : length (buf ++ piece) ≡ length buf + k =
        length-append buf piece ∙ ap (λ n. length buf + n) piece_size in
      let line : S = (serial.read size s.line).1 in
      let not_empty : (length piece == 0) ≡ false = ne→==_false (length piece) 0 (omega arith) in
      rw
        (
          lt→ltb (length buf) size (omega arith),
          bytes,
          not_empty,
          le→ltb_false capacity (length (buf ++ piece)) (omega arith),
        )
        (subst
          (λ all.
            Ends (IsAnswer all o s) Never
              (fill_loop serial fuel size capacity (buf ++ piece) (record s { line = line })))
          (append_assoc buf piece (drop k (b ∷ rest))
            ∙ ap (λ r. buf ++ r) (take-append-drop k (b ∷ rest)))
          (fill_loop-IsAnswer fuel size capacity (buf ++ piece) (drop k (b ∷ rest)) o
            (record s { line = line }) (kept size s.line ∙ same)
            (omega (arith, length-drop k (b ∷ rest))) behind
            (omega (arith, length-drop k (b ∷ rest), now_size)) room))

  -- If the line brings the command, a 0 and as many bytes as are expected, in pieces of any
  -- lengths, error_check returns 1 with these bytes, writes nothing behind its buffer, leaves
  -- nothing on the line, and keeps the last error.
  pub error_check-IsAnswer :
      (command size capacity : ℕ) (payload : List ℕ) (s : Link S)
      → pending s.line ≡ command ∷ 0 ∷ payload
      → length payload ≡ size
      → size ≤ capacity
      → Ends
          (IsAnswer payload (observed s.line) s)
          Never
          (error_check serial command size capacity s)
  unfolding error_check check_status
  error_check-IsAnswer command size capacity payload s left total room =
      let (bytes, behind) = one_byte serial pending delivers s.line command (0 ∷ payload) left in
      let line : S = (serial.read 1 s.line).1 in
      let (status, last) = one_byte serial pending delivers line 0 payload behind in
      let expected : (command == command) ≡ true = ground arith in
      rw (bytes, expected, status)
        (fill_loop-IsAnswer size size capacity [] payload (observed s.line)
          (record s { line = (serial.read 1 line).1 }) (kept 1 line ∙ kept 1 s.line) (omega arith)
          last (omega arith) room)
