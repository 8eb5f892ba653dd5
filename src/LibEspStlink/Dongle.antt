-- ===== src/LibEspStlink/Dongle.antt =====
-- A device on which the theorems of libespstlink.c and espstlink.c are tried: it answers READ, and
-- the line brings three bytes at most at a time.
use Prim.Native.Nat.{min}
use stm8flash.Common.{
  ℕ, zero, suc, ◌+◌, ◌≡◌, refl, sym, ap, ◌∙◌, List, [], ◌∷◌, some, arith, take, drop, length,
  take-nil, ◌<<◌,
}
use stm8flash.Programmer.Memory.{bytes_at}
use stm8flash.LibEspStlink.{Serial, Link, EspError, received}
use stm8flash.LibEspStlink.Answer.{Delivers}

pub record Dongle : Type 0 where
  pub waiting : List ℕ
  pub cells : ℕ → ℕ

abbrev answered : List ℕ → Dongle → Dongle
answered (c ∷ n ∷ e ∷ h ∷ l ∷ []) s = record s {
  waiting = c ∷ 0 ∷ n ∷ e ∷ h ∷ l ∷ bytes_at s.cells ((e << 16) + (h << 8) + l) n;
}
answered _ s = s

abbrev pub dongle : Serial Dongle
dongle = record {
  read = λ n s. (some (take (min n 3) s.waiting), record s { waiting = drop (min n 3) s.waiting });
  write = answered;
}

abbrev pub waiting : Dongle → List ℕ
waiting s = s.waiting

drop-nil : (n : ℕ) → drop {A = ℕ} n [] ≡ []
drop-nil zero = refl
drop-nil (suc n) = refl

take-min : (n : ℕ) (p : List ℕ) → take n p ≡ take (min n (length p)) p
take-min zero p = let e : 0 ≡ min 0 (length p) = omega arith in ap (λ k. take k p) e
take-min (suc n) [] = sym (take-nil (min (suc n) 0))
take-min (suc n) (x ∷ p) =
    let e : suc (min n (length p)) ≡ min (suc n) (suc (length p)) = omega arith in
    ap (λ t. x ∷ t) (take-min n p) ∙ ap (λ k. take k (x ∷ p)) e

drop-min : (n : ℕ) (p : List ℕ) → drop n p ≡ drop (min n (length p)) p
drop-min zero p = let e : 0 ≡ min 0 (length p) = omega arith in ap (λ k. drop k p) e
drop-min (suc n) [] = sym (drop-nil (min (suc n) 0))
drop-min (suc n) (x ∷ p) =
    let e : suc (min n (length p)) ≡ min (suc n) (suc (length p)) = omega arith in
    drop-min n p ∙ ap (λ k. drop k (x ∷ p)) e

pub dongle-Delivers : Delivers dongle waiting
dongle-Delivers = record {
  piece = λ n s p some_bytes not_empty left. (
    min (min n 3) (length p),
    omega arith,
    omega arith,
    omega arith,
    ap (λ q. some (take (min n 3) q)) left ∙ ap some (take-min (min n 3) p),
    ap (drop (min n 3)) left ∙ drop-min (min n 3) p,
  );
}

pub dongle_silent :
    (n : ℕ) (s : Dongle)
    → waiting s ≡ []
    → (received (dongle.read n s).0 ≡ []) × (waiting (dongle.read n s).1 ≡ [])
dongle_silent n s left =
    (ap (take (min n 3)) left ∙ take-nil (min n 3), ap (drop (min n 3)) left ∙ drop-nil (min n 3))

abbrev pub no_error : EspError
no_error = record { code = 0; bytes = []; data_len = 0; device_code = 0 }

abbrev pub link : List ℕ → Link Dongle
link bytes = record {
  line = record { waiting = bytes; cells = λ a. a + 1 };
  error = no_error;
  version = 0;
}
