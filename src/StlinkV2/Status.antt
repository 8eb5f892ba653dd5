-- ===== src/StlinkV2/Status.antt =====
-- swim_cmd_internal of stlinkv2.c: the wait until the adapter has carried a SWIM command out.
use stm8flash.Common.{
  ℕ, suc, ◌+◌, ◌-◌, ◌≤◌, ◌<◌, ◌≡◌, ◌↔◌, ◌⊎◌, inl, inr, sym, ap, ◌∙◌, List, [], ◌∷◌, ◌++◌, arith,
  replicate,
}
use stm8flash.Common.{Bool, true, false, ◌&&◌, ltb, ◌==◌, if◌then◌else◌, Bool-cases, ltb→lt}

-- The four bytes of an answer to SWIM_READSTATUS.
pub record Status : Type 0 where
  pub code : ℕ
  pub second : ℕ
  pub third : ℕ
  pub fourth : ℕ

-- memcmp(status[0], status[1], 4) == 0.
unfoldable pub same_status : Status → Status → Bool
same_status a b =
    a.code == b.code && (a.second == b.second && (a.third == b.third && a.fourth == b.fourth))

-- `finished` is the return; `swim_error` has the code that ERROR2 prints, behind which the program
-- exits. `waiting`: the answers ran out before either.
pub data Wait : Type 0 where
  finished waiting : Wait
  swim_error : ℕ → Wait

-- The loop over the answers of the adapter. `older` and `last` are the two places of `status`, of
-- which an answer takes that of the older; a fourth stall in a row leaves the loop.
unfoldable pub wait_status : List Status → ℕ → Status → Status → Wait
unfolding same_status
wait_status [] stalls older last = if ltb stalls 4 then waiting else swim_error older.code
wait_status (answer ∷ answers) stalls older last =
    let stalled = wait_status answers (stalls + 1) last answer in
    let moved = wait_status answers 0 last answer in
    if ltb stalls 4
    then if answer.code == 0 then finished else if same_status answer last then stalled else moved
    else swim_error older.code

pub same_status_iff : (a b : Status) → (same_status a b ≡ true) ↔ (a ≡ b)
unfolding same_status
same_status_iff a b = ground arith

-- What the answers of a wait that fails are, where `stalls` of them equal to `last` went before:
-- as many more as make four, or later five equal answers in a row.
abbrev pub IsFailed : ℕ → Status → List Status → ℕ → Type 0
IsFailed stalls last answers e =
    ((rest : List Status) × (answers ≡ replicate (4 - stalls) last ++ rest) × (last.code ≡ e))
    ⊎ ((before : List Status) × (rest : List Status) × (s : Status) × (answers
          ≡ before ++ (replicate 5 s ++ rest))
        × (s.code ≡ e))

abbrev error_code : Wait → ℕ
error_code (swim_error e) = e
error_code _ = 0

pub replicate-next :
    (stalls : ℕ) (s : Status) (rest : List Status)
    → stalls < 4
    → s ∷ (replicate (4 - (stalls + 1)) s ++ rest) ≡ replicate (4 - stalls) s ++ rest
replicate-next stalls s rest h =
    let one_more : suc (4 - (stalls + 1)) ≡ 4 - stalls = omega arith in
    ap (λ n. replicate n s ++ rest) one_more

at_limit :
    (stalls : ℕ) (older last : Status) (answers : List Status) (e : ℕ)
    → stalls ≤ 4
    → (1 ≤ stalls → older ≡ last)
    → ltb stalls 4 ≡ false
    → older.code ≡ e
    → IsFailed stalls last answers e
at_limit stalls older last answers e h k done w =
    let four : stalls ≡ 4 = ground arith in
    let none_left : 0 ≡ 4 - stalls = omega arith in
    inl (
      answers,
      ap (λ n. replicate n last ++ answers) none_left,
      ap (λ (s : Status). s.code) (sym (k (omega arith))) ∙ w,
    )

pub wait_status-IsFailed :
    (answers : List Status) (stalls : ℕ) (older last : Status) (e : ℕ)
    → stalls ≤ 4
    → (1 ≤ stalls → older ≡ last)
    → wait_status answers stalls older last ≡ swim_error e
    → IsFailed stalls last answers e
unfolding wait_status
wait_status-IsFailed [] stalls older last e h k w = elim (Bool-cases (ltb stalls 4)) [
  | inl more ↦ absurd (cc (rw (more, wait_status) at w))
  | inr done ↦
      at_limit stalls older last [] e h k done (ap error_code (rw (done, wait_status) at w))
]
wait_status-IsFailed (answer ∷ answers) stalls older last e h k w =
    elim (Bool-cases (ltb stalls 4)) [
      | inr done ↦
          at_limit stalls older last (answer ∷ answers) e h k done
            (ap error_code (rw (done, wait_status) at w))
      | inl more ↦ elim (Bool-cases (answer.code == 0)) [
        | inl ok ↦ absurd (cc (rw (more, ok, wait_status) at w))
        | inr busy ↦ elim (Bool-cases (same_status answer last)) [
          | inl same ↦
              let equal = (same_status_iff answer last).0 same in
              let few : stalls < 4 = ltb→lt stalls 4 more in
              elim (wait_status-IsFailed answers (stalls + 1) last answer e (omega arith)
                (λ one. sym equal) (rw (more, busy, same, wait_status) at w)) [
                  | inl (rest, all, code) ↦ inl (
                    rest,
                    ap (λ t. answer ∷ t) all
                        ∙ replicate-next stalls answer rest few
                        ∙ ap (λ s. replicate (4 - stalls) s ++ rest) equal,
                    ap (λ (s : Status). s.code) (sym equal) ∙ code,
                  )
                  | inr (before, rest, s, all, code) ↦
                      inr (answer ∷ before, rest, s, ap (λ t. answer ∷ t) all, code)
                ]
          | inr other ↦
              elim (wait_status-IsFailed answers 0 last answer e (omega arith)
                (λ one. absurd (omega arith)) (rw (more, busy, other, wait_status) at w)) [
                  | inl (rest, all, code) ↦ inr ([], rest, answer, ap (λ t. answer ∷ t) all, code)
                  | inr (before, rest, s, all, code) ↦
                      inr (answer ∷ before, rest, s, ap (λ t. answer ∷ t) all, code)
                ]
        ]
      ]
    ]

pub swim_error-IsFailed :
    (answers : List Status) (older last : Status) (e : ℕ)
    → wait_status answers 0 older last ≡ swim_error e
    → IsFailed 0 last answers e
swim_error-IsFailed answers older last e w =
    wait_status-IsFailed answers 0 older last e (omega arith) (λ one. absurd (omega arith)) w
