-- ===== src/Device/Part/Search.antt =====
-- get_part finds the first device whose name, as a pattern, is a prefix of the name asked for.
use stm8flash.Common.{ℕ, ◌≡◌, ◌↔◌, ◌⊎◌, inl, inr, refl, ap, List, [], ◌∷◌, ◌++◌, Option, none, some}
use stm8flash.Common.{true, false, Bool-cases, ◌||◌, ◌==◌, arith, All}
use stm8flash.Device.{Device}
use stm8flash.Device.Part.{toupper, match_part, get_part}

-- A character of a device's name against one of the name that is asked for.
abbrev pub Fits : ℕ → ℕ → Type 0
Fits e c = (e ≡ c) ⊎ (toupper e ≡ c) ⊎ (e ≡ b'?')

-- The pattern covers a prefix of the name.
pub data Matches : List ℕ → List ℕ → Type 0 where
  all_read : (s : List ℕ) → Matches [] s
  char : {e c : ℕ} {es s : List ℕ} → Fits e c → Matches es s → Matches (e ∷ es) (c ∷ s)

Fits-iff : (e c : ℕ) → ((e == c || (toupper e == c || e == b'?')) ≡ true) ↔ Fits e c
Fits-iff e c = ground arith

match_part_other :
    (e c : ℕ) (es s : List ℕ)
    → (e == c || (toupper e == c || e == b'?')) ≡ false
    → match_part (e ∷ es) (c ∷ s) ≡ false
unfolding match_part
match_part_other e c es s h = rw h

to_Matches : (es s : List ℕ) → match_part es s ≡ true → Matches es s
unfolding match_part
to_Matches [] s h = all_read s
to_Matches (e ∷ es) [] h = absurd (cc)
to_Matches (e ∷ es) (c ∷ s) h = elim (Bool-cases (e == c || (toupper e == c || e == b'?'))) [
  | inl fits ↦ char ((Fits-iff e c).0 fits) (to_Matches es s (rw fits at h))
  | inr other ↦ cc (match_part_other e c es s other)
]

of_Matches : {es s : List ℕ} → Matches es s → match_part es s ≡ true
unfolding match_part
of_Matches (all_read s) = refl
of_Matches (char {e} {c} f m) = rw ((Fits-iff e c).1 f) (of_Matches m)

-- The walk of get_part along a device's name and the name asked for succeeds exactly if the
-- device's name covers a prefix of it, where `?` stands for any character and a lower-case letter
-- for itself or its upper case.
pub match_part-Matches : (es s : List ℕ) → (match_part es s ≡ true) ↔ Matches es s
match_part-Matches es s = (to_Matches es s, of_Matches)

-- What is to be found: the first device of the list that matches, or none if no device does.
abbrev pub IsFound : List Device → List ℕ → Option Device → Type 0
IsFound devices name none = All (λ (d : Device). ¬ Matches d.name name) devices
IsFound devices name (some d) =
    (before : List Device) × (after : List Device) × (devices ≡ before ++ (d ∷ after))
    × Matches d.name name
    × All (λ (d : Device). ¬ Matches d.name name) before

IsFound-cons :
    (d : Device) (devices : List Device) (name : List ℕ) (o : Option Device)
    → ¬ Matches d.name name
    → IsFound devices name o
    → IsFound (d ∷ devices) name o
IsFound-cons d devices name none h f = (h, f)
IsFound-cons d devices name (some x) h (before, after, e, m, b) =
    (d ∷ before, after, ap (λ t. d ∷ t) e, m, (h, b))

-- get_part returns the first device of the list whose name matches, and NULL if there is none.
pub get_part-IsFound :
    (devices : List Device) (name : List ℕ) → IsFound devices name (get_part devices name)
unfolding get_part
get_part-IsFound [] name = tt
get_part-IsFound (d ∷ devices) name = elim (Bool-cases (match_part d.name name)) [
  | inl hit ↦ rw hit ([], devices, refl, to_Matches d.name name hit, tt)
  | inr miss ↦ rw miss (
      IsFound-cons d devices name (get_part devices name) (λ m. absurd (cc (miss, of_Matches m)))
        (get_part-IsFound devices name))
]
