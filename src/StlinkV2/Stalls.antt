-- ===== src/StlinkV2/Stalls.antt =====
-- swim_cmd_internal of stlinkv2.c: a wait that goes on has seen no five equal answers in a row.
use stm8flash.Common.{
  ℕ, zero, suc, ◌+◌, ◌-◌, ◌<◌, ◌≡◌, inl, inr, sym, ap, ◌∙◌, List, [], ◌∷◌, ◌++◌, arith, replicate,
  drop, ltb, ltb→lt, ◌==◌, Bool-cases,
}
use stm8flash.StlinkV2.Status.{
  Status, waiting, wait_status, same_status, same_status_iff, IsFailed, replicate-next,
}

abbrev head_or : Status → List Status → Status
head_or s [] = s
head_or s (t ∷ _) = t

replicate-split :
    (a b : ℕ) (s : Status) (rest : List Status)
    → replicate (a + b) s ++ rest ≡ replicate a s ++ (replicate b s ++ rest)
replicate-split zero b s rest = ap (λ n. replicate n s ++ rest) (omega arith)
replicate-split (suc a) b s rest =
    let more : suc a + b ≡ suc (a + b) = omega arith in
    ap (λ n. replicate n s ++ rest) more ∙ ap (λ t. s ∷ t) (replicate-split a b s rest)

-- Four equal answers behind one of them: as many as a count of stalls still allows.
four_more :
    (stalls : ℕ) (s answer : Status) (answers rest : List Status) (e : ℕ)
    → stalls < 4
    → answer ≡ s
    → answers ≡ replicate 4 s ++ rest
    → s.code ≡ e
    → IsFailed (stalls + 1) answer answers e
four_more stalls s answer answers rest e few same all code =
    let total : 4 ≡ (4 - (stalls + 1)) + (stalls + 1) = omega arith in
    inl (
      replicate (stalls + 1) s ++ rest,
      all
          ∙ ap (λ n. replicate n s ++ rest) total
          ∙ replicate-split (4 - (stalls + 1)) (stalls + 1) s rest
          ∙ ap (λ t. replicate (4 - (stalls + 1)) t ++ (replicate (stalls + 1) s ++ rest))
              (sym same),
      ap (λ (t : Status). t.code) same ∙ code,
    )

pub waiting-IsFailed :
    (answers : List Status) (stalls : ℕ) (older last : Status) (e : ℕ)
    → wait_status answers stalls older last ≡ waiting
    → ¬ IsFailed stalls last answers e
unfolding wait_status
waiting-IsFailed [] stalls older last e w failed = elim (Bool-cases (ltb stalls 4)) [
  | inr done ↦ absurd (cc (rw (done, wait_status) at w))
  | inl more ↦ elim failed [
    | inl (rest, all, code) ↦
        absurd (cc (all ∙ sym (replicate-next stalls last rest (ltb→lt stalls 4 more))))
    | inr ([], rest, s, all, code) ↦ absurd (cc all)
    | inr (b ∷ before, rest, s, all, code) ↦ absurd (cc all)
  ]
]
waiting-IsFailed (answer ∷ answers) stalls older last e w failed =
    elim (Bool-cases (ltb stalls 4)) [
      | inr done ↦ absurd (cc (rw (done, wait_status) at w))
      | inl more ↦ elim (Bool-cases (answer.code == 0)) [
        | inl over ↦ absurd (cc (rw (more, over, wait_status) at w))
        | inr busy ↦ elim (Bool-cases (same_status answer last)) [
          | inl same ↦
              let equal : answer ≡ last = (same_status_iff answer last).0 same in
              let few : stalls < 4 = ltb→lt stalls 4 more in
              let later =
                waiting-IsFailed answers (stalls + 1) last answer e
                  (rw (more, busy, same, wait_status) at w) in
              elim failed [
                | inl (rest, all, code) ↦ later (
                    inl (
                      rest,
                      ap (drop 1) (all ∙ sym (replicate-next stalls last rest few))
                          ∙ ap (λ t. replicate (4 - (stalls + 1)) t ++ rest) (sym equal),
                      ap (λ (t : Status). t.code) equal ∙ code,
                    ))
                | inr ([], rest, s, all, code) ↦ later (
                    four_more stalls s answer answers rest e few (ap (head_or s) all)
                      (ap (drop 1) all) code)
                | inr (b ∷ before, rest, s, all, code) ↦
                    later (inr (before, rest, s, ap (drop 1) all, code))
              ]
          | inr other ↦
              let few : stalls < 4 = ltb→lt stalls 4 more in
              let later =
                waiting-IsFailed answers 0 last answer e
                  (rw (more, busy, other, wait_status) at w) in
              elim failed [
                | inl (rest, all, code) ↦
                    let equal : answer ≡ last =
                      ap (head_or last) (all ∙ sym (replicate-next stalls last rest few)) in
                    absurd (cc (other, (same_status_iff answer last).1 equal))
                | inr ([], rest, s, all, code) ↦ later (
                    inl (
                      rest,
                      ap (drop 1) all ∙ ap (λ t. replicate 4 t ++ rest) (sym (ap (head_or s) all)),
                      ap (λ (t : Status). t.code) (ap (head_or s) all) ∙ code,
                    ))
                | inr (b ∷ before, rest, s, all, code) ↦
                    later (inr (before, rest, s, ap (drop 1) all, code))
              ]
        ]
      ]
    ]
