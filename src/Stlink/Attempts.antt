-- ===== src/Stlink/Attempts.antt =====
-- The attempts of stlink_swim_write_byte.
use stm8flash.Common.{
  ℕ, zero, suc, ◌≤◌, ◌<◌, ◌≡◌, refl, arith, Bool, true, false, ◌&&◌, ◌==◌, Bool-cases, inl, inr,
  bit, u8,
}
use stm8flash.Programmer.{ok}
use stm8flash.Programmer.Ends.{Ends, Ends-mono}
use stm8flash.Stlink.Swim.{Usb, write_attempt, write_loop, stlink_swim_write_byte}

-- STLK_FLAG_BUFFER_FULL and STLK_FLAG_ERR, both.
abbrev pub full_and_error : ℕ → Bool
full_and_error status = bit status 2 == 1 && bit status 0 == 1

module _ {S : Type 0} (status : S → ℕ) (after : S → S) where
  -- The state behind so many attempts.
  abbrev pub behind : ℕ → S → S
  behind zero s = s
  behind (suc k) s = behind k (after s)

  -- The result is that of the attempt behind the first `k`, all of which had both flags; it has
  -- not, unless no more are allowed.
  abbrev pub IsAttempt : ℕ → S → ℕ → S → Type 0
  IsAttempt most s result t =
      (k : ℕ) × (k ≤ most)
      × (result ≡ status (behind k s))
      × (t ≡ behind (suc k) s)
      × ((j : ℕ) → j < k → full_and_error (status (behind j s)) ≡ true)
      × (k < most → full_and_error result ≡ false)

  IsAttempt-first :
      (most : ℕ) (s : S)
      → (0 < most → full_and_error (status s) ≡ false)
      → IsAttempt most s (status s) (after s)
  IsAttempt-first most s h = (0, omega arith, refl, refl, (λ j few. absurd (omega arith)), h)

  IsAttempt-next :
      (most : ℕ) (s : S) (result : ℕ) (t : S)
      → full_and_error (status s) ≡ true
      → IsAttempt most (after s) result t
      → IsAttempt (suc most) s result t
  IsAttempt-next most s result t flags (k, few, same, last, before, end) =
      (suc k, omega arith, same, last, earlier, λ h. end (omega arith))
    where
      earlier : (j : ℕ) → j < suc k → full_and_error (status (behind j s)) ≡ true
      earlier zero h = flags
      earlier (suc j) h = before j (omega arith)

module _ {S : Type 0} (usb : Usb S) (byte start : ℕ) (status : S → ℕ) (after : S → S)
    (answered : (s : S) → write_attempt usb (u8 byte) start s ≡ ok (status s) (after s)) where
  write_loop-IsAttempt :
      (left : ℕ) (s : S)
      → Ends (IsAttempt status after left s) (λ _ _. ⊥) (write_loop usb left (u8 byte) start s)
  unfolding write_loop
  write_loop-IsAttempt zero s =
      rw (answered s) (IsAttempt-first status after zero s (λ h. absurd (omega arith)))
  write_loop-IsAttempt (suc left) s = elim (Bool-cases (full_and_error (status s))) [
    | inl again ↦
        rw (answered s, again)
          (Ends-mono (IsAttempt status after left (after s)) (IsAttempt status after (suc left) s)
            (λ _ _. ⊥) (λ _ _. ⊥) (write_loop usb left (u8 byte) start (after s))
            (write_loop-IsAttempt left (after s))
            (λ result t h. IsAttempt-next status after left s result t again h) (λ message t h. h))
    | inr over ↦ rw (answered s, over) (IsAttempt-first status after (suc left) s (λ h. over))
  ]

  -- If the adapter answers each attempt with a status, stlink_swim_write_byte returns behind one to
  -- five attempts with the status of the last of them: every earlier attempt had both the flag of a
  -- full buffer and that of an error, and the last has not, unless it is the fifth.
  pub stlink_swim_write_byte-IsAttempt :
      (s : S)
      → Ends (IsAttempt status after 4 s) (λ _ _. ⊥) (stlink_swim_write_byte usb byte start s)
  unfolding stlink_swim_write_byte
  stlink_swim_write_byte-IsAttempt s = write_loop-IsAttempt 4 s
