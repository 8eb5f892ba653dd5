-- ===== src/Programmer/Ends.antt =====
-- How a run ends: with a result, or by leaving the program, and what holds then.
use stm8flash.Common.{◌≡◌, sym, subst}
use stm8flash.Programmer.{Message, Run, ok, exited, fault, endless, Cmd, and_then}

-- The run returns and `P` holds of the result and the state, or it leaves the program and `E` holds
-- of the message and the state; it accesses nothing outside of its arrays, and its loops end.
abbrev pub Ends : {S A : Type 0} → (A → S → Type 0) → (Message → S → Type 0) → Run S A → Type 0
Ends P E (ok a s) = P a s
Ends P E (exited message s) = E message s
Ends P E fault = ⊥
Ends P E endless = ⊥

module _ {S A : Type 0} where
  pub Ends-and_then :
      {B : Type 0} (P : A → S → Type 0) (Q : B → S → Type 0) (E : Message → S → Type 0)
      (r : Run S A) (k : A → Cmd S B)
      → Ends P E r
      → ((a : A) (s : S) → P a s → Ends Q E (k a s))
      → Ends Q E (and_then r k)
  Ends-and_then P Q E (ok a s) k h next = next a s h
  Ends-and_then P Q E (exited message s) k h next = h
  Ends-and_then P Q E fault k h next = absurd h
  Ends-and_then P Q E endless k h next = absurd h

  -- A first command whose result is known.
  pub Ends-ok :
      {B : Type 0} (Q : B → S → Type 0) (E : Message → S → Type 0) (r : Run S A) (k : A → Cmd S B)
      (a : A) (s : S)
      → r ≡ ok a s
      → Ends Q E (k a s)
      → Ends Q E (and_then r k)
  Ends-ok Q E r k a s e h = subst (λ t. Ends Q E (and_then t k)) (sym e) h

  pub Ends-mono :
      (P Q : A → S → Type 0) (E F : Message → S → Type 0) (r : Run S A)
      → Ends P E r
      → ((a : A) (s : S) → P a s → Q a s)
      → ((message : Message) (s : S) → E message s → F message s)
      → Ends Q F r
  Ends-mono P Q E F (ok a s) h f g = f a s h
  Ends-mono P Q E F (exited message s) h f g = g message s h
  Ends-mono P Q E F fault h f g = h
  Ends-mono P Q E F endless h f g = h
