-- ===== src/StlinkV2/Command.antt =====
-- A command loses none of its arguments and data.
use stm8flash.Common.{
  ℕ, zero, suc, ◌-◌, ◌≤◌, ◌≡◌, refl, sym, ap, ◌∙◌, List, [], ◌∷◌, ◌++◌, append-nil, map, some,
  arith, length, replicate, u8,
}
use stm8flash.StlinkV2.{fill_data, command}

abbrev pub zeros : ℕ → List ℕ
zeros n = replicate n 0

fill_data-append :
    (room : ℕ) (buf : List ℕ)
    → (length (fill_data room buf).0 ≡ room)
      × ((fill_data room buf).0 ++ (fill_data room buf).1 ≡ buf ++ zeros (room - length buf))
unfolding fill_data
fill_data-append zero [] = (refl, refl)
fill_data-append zero (d ∷ buf) =
    let none_free : 0 ≡ 0 - suc (length buf) = omega arith in
    (refl, sym (append-nil (d ∷ buf)) ∙ ap (λ n. (d ∷ buf) ++ zeros n) none_free)
fill_data-append (suc room) [] =
    let (size, all) = fill_data-append room [] in
    let free : suc (room - 0) ≡ suc room - 0 = omega arith in
    (ap suc size, ap (λ s. 0 ∷ s) all ∙ ap zeros free)
fill_data-append (suc room) (d ∷ buf) =
    let (size, all) = fill_data-append room buf in
    let free : room - length buf ≡ suc room - suc (length buf) = omega arith in
    (ap suc size, ap (λ s. d ∷ s) (all ∙ ap (λ n. buf ++ zeros n) free))

-- A command of `room` arguments at most fills cmd_buf, and its bytes with those of the message
-- behind it are the arguments, the data, and zeros if cmd_buf has room for more.
pub command-append :
    (room : ℕ) (args buf : List ℕ)
    → length args ≤ room
    → (cmd_buf : List ℕ) × (rest : List ℕ) × (command room args buf ≡ some (cmd_buf, rest))
      × (length cmd_buf ≡ room)
      × (cmd_buf ++ rest ≡ map u8 args ++ (buf ++ zeros (room - length args - length buf)))
unfolding command
command-append room [] buf h =
    let (size, all) = fill_data-append room buf in
    let free : room - length buf ≡ room - 0 - length buf = omega arith in
    (
      (fill_data room buf).0,
      (fill_data room buf).1,
      refl,
      size,
      all ∙ ap (λ n. buf ++ zeros n) free,
    )
command-append zero (a ∷ args) buf h = absurd (omega arith)
command-append (suc room) (a ∷ args) buf h =
    let (cmd_buf, rest, e, size, all) = command-append room args buf (omega arith) in
    let free : room - length args - length buf ≡ suc room - suc (length args) - length buf =
      omega arith in
    (
      u8 a ∷ cmd_buf,
      rest,
      rw e refl,
      ap suc size,
      ap (λ s. u8 a ∷ s) (all ∙ ap (λ n. map u8 args ++ (buf ++ zeros n)) free),
    )
