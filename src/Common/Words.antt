-- ===== src/Common/Words.antt =====
-- Machine words: wrap by `%`, shift by `/` and `*`.
use Prim.Native.Nat.{ℕ, ◌+◌, ◌-◌, ◌*◌, ◌/◌, ◌%◌, ◌^◌}
use Prim.Native.Char.{code}
use Prim.Native.String.{String}
use mathlib.Core.List.{List, [], ◌∷◌}
use stm8flash.Common.Tests.{◌==◌, if◌then◌else◌}

abbrev pub u8 : ℕ → ℕ
u8 n = n % 256

abbrev pub u16 : ℕ → ℕ
u16 n = n % 65536

abbrev pub u32 : ℕ → ℕ
u32 n = n % 4294967296

-- unsigned a - b; the modulus is added first, since `-` on ℕ stops at 0.
abbrev pub sub32 : ℕ → ℕ → ℕ
sub32 a b = (a + 4294967296 - b % 4294967296) % 4294967296

infixl 75 ◌<<◌ ◌>>◌
abbrev pub ◌<<◌ : ℕ → ℕ → ℕ
x << k = x * 2 ^ k

abbrev pub ◌>>◌ : ℕ → ℕ → ℕ
x >> k = x / 2 ^ k

-- A bit of a number, and the number with the bit set (`| 1 << k`) or cleared (`& ~(1 << k)`).
abbrev pub bit : ℕ → ℕ → ℕ
bit v k = (v >> k) % 2

abbrev pub set_bit : ℕ → ℕ → ℕ
set_bit k v = if bit v k == 1 then v else v + 2 ^ k

abbrev pub clear_bit : ℕ → ℕ → ℕ
clear_bit k v = v - bit v k * 2 ^ k

-- The character codes of a literal text.
abbrev pub codes : String → List ℕ
codes String.[] = []
codes (String.◌∷◌ c s) = code c ∷ codes s
