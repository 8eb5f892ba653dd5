-- ===== src/Stdio/Output.antt =====
-- Writing to a file with fprintf, and what a function that does so comes to.
use stm8flash.Common.{◌≢◌, ℕ, List, ◌++◌, Bool, if◌then◌else◌}

-- What a writing function has done: `ok` has the file's contents, `io_error` is the return
-- value -1, `fault` a read outside the array. `stuck` is the model's: the fuel ran out.
pub data Io : Type 0 where
  ok : List ℕ → Io
  io_error fault stuck : Io

infixl 5 ◌>>=◌
abbrev pub ◌>>=◌ : Io → (List ℕ → Io) → Io
ok file >>= f = f file
io_error >>= f = io_error
fault >>= f = fault
stuck >>= f = stuck

-- A chain ends if its parts do.
pub bind-ne-stuck :
    (m : Io) (f : List ℕ → Io) → m ≢ stuck → ((file : List ℕ) → f file ≢ stuck) → (m >>= f) ≢ stuck
bind-ne-stuck (ok file) f h k = k file
bind-ne-stuck io_error f h k = h
bind-ne-stuck fault f h k = h
bind-ne-stuck stuck f h k = h

-- `accepts file text` says whether the file, with the contents `file`, takes a text that is printed
-- to it: the disk decides.
module _ (accepts : List ℕ → List ℕ → Bool) where
  unfoldable pub fprintf : List ℕ → List ℕ → Io
  fprintf file text = if accepts file text then ok (file ++ text) else io_error

  -- A call whose result is not looked at.
  unfoldable pub fprintf_unchecked : List ℕ → List ℕ → List ℕ
  fprintf_unchecked file text = if accepts file text then file ++ text else file
