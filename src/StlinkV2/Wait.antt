-- ===== src/StlinkV2/Wait.antt =====
-- The wait of swim_cmd_internal on its adapter, by the answers that the adapter gives.
use stm8flash.Common.{
  ℕ, zero, suc, ◌+◌, ◌≤◌, ◌<◌, ◌≡◌, ◌≢◌, ◌∙◌, refl, List, [], ◌∷◌, arith, ltb, ◌==◌, Bool-cases,
  inl, inr,
}
use stm8flash.Programmer.{Message, Run, ok, exited, endless, ProgrammerType}
use stm8flash.StlinkV2.Usb.{Usb, read_status, wait_loop}
use stm8flash.StlinkV2.Status.{
  Status, waiting, swim_error, wait_status, same_status, IsFailed, swim_error-IsFailed,
}
use stm8flash.StlinkV2.Stalls.{waiting-IsFailed}

module _ {S : Type 0} (status : S → Status) (after : S → S) where
  -- The state behind so many answers, and the answers.
  abbrev pub behind : ℕ → S → S
  behind zero s = s
  behind (suc n) s = behind n (after s)

  abbrev pub answers : ℕ → S → List Status
  answers zero s = []
  answers (suc n) s = status s ∷ answers n (after s)

  -- The first `n` answers say that the adapter is busy.
  abbrev pub AllBusy : ℕ → S → Type 0
  AllBusy zero s = Unit
  AllBusy (suc n) s = ((status s).code ≢ 0) × AllBusy n (after s)

  -- How a wait ends: it returns behind the first answer with code 0, gives up behind `n` answers, or
  -- has not ended in so many rounds. `Goes` and `Fails` are what holds of the busy answers then.
  pub data EndsBy (Goes : ℕ → S → Type 0) (Fails : ℕ → S → ℕ → Type 0) (rounds : ℕ) (s : S)
      : Run S (Unit {0}) → Type 0 where
    returned :
        (n : ℕ)
        → n < rounds
        → AllBusy n s
        → Goes n s
        → (status (behind n s)).code ≡ 0
        → EndsBy Goes Fails rounds s (ok tt (behind (suc n) s))
    gave_up :
        (n e : ℕ)
        → n ≤ rounds
        → AllBusy n s
        → Fails n s e
        → EndsBy Goes Fails rounds s (exited (Message.swim_error e) (behind n s))
    goes_on : AllBusy rounds s → Goes rounds s → EndsBy Goes Fails rounds s endless

  -- By the answers that stall: five equal ones in a row, or four that equal `last` at the start.
  abbrev pub IsWaited : ℕ → Status → S → Run S (Unit {0}) → Type 0
  IsWaited rounds last s run =
      EndsBy (λ n t. (e : ℕ) → ¬ IsFailed 0 last (answers n t) e)
        (λ n t e. IsFailed 0 last (answers n t) e) rounds s run

  -- By what wait_status makes of them.
  abbrev Goes : ℕ → Status → Status → ℕ → S → Type 0
  Goes stalls older last n s = wait_status (answers n s) stalls older last ≡ waiting

  abbrev Fails : ℕ → Status → Status → ℕ → S → ℕ → Type 0
  Fails stalls older last n s e = wait_status (answers n s) stalls older last ≡ swim_error e

  to_IsWaited :
      (older last : Status) (rounds : ℕ) (s : S) (run : Run S (Unit {0}))
      → EndsBy (Goes 0 older last) (Fails 0 older last) rounds s run
      → IsWaited rounds last s run
  to_IsWaited older last rounds s _ (returned n few busy goes over) =
      returned n few busy (λ e. waiting-IsFailed (answers n s) 0 older last e goes) over
  to_IsWaited older last rounds s _ (gave_up n e few busy fails) =
      gave_up n e few busy (swim_error-IsFailed (answers n s) older last e fails)
  to_IsWaited older last rounds s _ (goes_on busy goes) =
      goes_on busy (λ e. waiting-IsFailed (answers rounds s) 0 older last e goes)

  -- A busy answer in front.
  EndsBy-next :
      (stalls stalls' : ℕ) (older last : Status) (rounds : ℕ) (s : S) (run : Run S (Unit {0}))
      → (status s).code ≢ 0
      → ((later : List Status)
          → wait_status (status s ∷ later) stalls older last
            ≡ wait_status later stalls' last (status s))
      → EndsBy (Goes stalls' last (status s)) (Fails stalls' last (status s)) rounds (after s) run
      → EndsBy (Goes stalls older last) (Fails stalls older last) (suc rounds) s run
  EndsBy-next stalls stalls' older last rounds s _ code step (returned n few busy goes over) =
      returned (suc n) (omega arith) (code, busy) (step (answers n (after s)) ∙ goes) over
  EndsBy-next stalls stalls' older last rounds s _ code step (gave_up n e few busy fails) =
      gave_up (suc n) e (omega arith) (code, busy) (step (answers n (after s)) ∙ fails)
  EndsBy-next stalls stalls' older last rounds s _ code step (goes_on busy goes) =
      goes_on (code, busy) (step (answers rounds (after s)) ∙ goes)

module _ {S : Type 0} (usb : Usb S) (type : ProgrammerType) (status : S → Status) (after : S → S)
    (answered : (s : S) → read_status usb type s ≡ ok (status s) (after s)) where
  wait_loop-EndsBy :
      (rounds stalls : ℕ) (older last : Status) (s : S)
      → EndsBy status after
          (Goes status after stalls older last)
          (Fails status after stalls older last)
          rounds
          s
          (wait_loop usb type rounds stalls older last s)
  unfolding wait_loop wait_status
  wait_loop-EndsBy zero stalls older last s = elim (Bool-cases (ltb stalls 4)) [
    | inl more ↦ rw more (goes_on tt (rw more refl))
    | inr done ↦ rw done (gave_up 0 older.code (omega arith) tt (rw done refl))
  ]
  wait_loop-EndsBy (suc rounds) stalls older last s = elim (Bool-cases (ltb stalls 4)) [
    | inr done ↦ rw done (gave_up 0 older.code (omega arith) tt (rw done refl))
    | inl more ↦ elim (Bool-cases ((status s).code == 0)) [
      | inl over ↦
          rw (more, answered s, over) (returned 0 (omega arith) tt (rw more refl) (ground arith))
      | inr busy ↦ elim (Bool-cases (same_status (status s) last)) [
        | inl same ↦
            rw (more, answered s, busy, same)
              (EndsBy-next status after stalls (stalls + 1) older last rounds s _ (ground arith)
                (λ later. rw (more, busy, same) refl)
                (wait_loop-EndsBy rounds (stalls + 1) last (status s) (after s)))
        | inr other ↦
            rw (more, answered s, busy, other)
              (EndsBy-next status after stalls 0 older last rounds s _ (ground arith)
                (λ later. rw (more, busy, other) refl)
                (wait_loop-EndsBy rounds 0 last (status s) (after s)))
      ]
    ]
  ]

  -- If the adapter answers each SWIM_READSTATUS with four bytes, the wait of swim_cmd_internal does
  -- one of three things. It returns behind the first answer with code 0, having met no stall
  -- before; or it gives up with the code of a stall that the answers it has read, all of them busy,
  -- contain; or all the answers of the rounds were busy without a stall. A stall is five equal
  -- answers in a row, or four at the start that equal what stood in the array. It never accesses
  -- anything outside its arrays and never leaves the program otherwise.
  pub wait_loop-IsWaited :
      (rounds : ℕ) (older last : Status) (s : S)
      → IsWaited status after rounds last s (wait_loop usb type rounds 0 older last s)
  wait_loop-IsWaited rounds older last s =
      to_IsWaited status after older last rounds s (wait_loop usb type rounds 0 older last s)
        (wait_loop-EndsBy rounds 0 older last s)
