-- ===== src/Main/Copy.antt =====
-- A device's memory that is read into a file, written from it to another device, and verified.
use stm8flash.Common.{ℕ, ◌+◌, ◌≤◌, ◌<◌, ◌≡◌, sym, ap, ◌∙◌, List, Bool, true, length, u32}
use stm8flash.Device.{Device}
use stm8flash.Stdio.Output.{Io}
use stm8flash.Ihex.{ihex_write}
use stm8flash.Programmer.{Message, Programmer}
use stm8flash.Programmer.Ends.{Ends, Ends-mono}
use stm8flash.Programmer.Memory.{bytes_at, length-bytes_at, store, bytes_at-store}
use stm8flash.Main.{Request, intel_hex, align_write}
use stm8flash.Main.Action.{read_action, verify_action, write_action}
use stm8flash.Main.Serves.{
  Never, Serves, bytes_at-IsByte, read_action-ihex_write, write_action-store, verify_action-same,
}

module _ {S T : Type 0} (target : Programmer T) (part2 : Device) (memory : S → ℕ → ℕ)
    (memory2 : T → ℕ → ℕ) (r : Request) where
  -- The bytes of the source are in the target, and VERIFY finds them there.
  abbrev pub IsCopied : List ℕ → List ℕ → List ℕ → S → T → ℕ → T → Type 0
  IsCopied line old file s t n u =
      (n ≡ r.bytes_count)
      × (memory2 u ≡ store (memory2 t) r.start (bytes_at (memory s) r.start r.bytes_count))
      × Ends (λ k v. (k ≡ r.bytes_count) × (memory2 v ≡ memory2 u)) Never
          (verify_action target part2 intel_hex r line file old u)

module _ (accepts : List ℕ → List ℕ → Bool) (all : (f t : List ℕ) → accepts f t ≡ true)
    (r : Request) (some_byte : 1 ≤ r.bytes_count) (few : r.bytes_count ≤ 2147483392)
    (below : r.start + r.bytes_count < 4294967296) {S T : Type 0} (source : Programmer S)
    (target : Programmer T) (part part2 : Device) (memory : S → ℕ → ℕ) (memory2 : T → ℕ → ℕ)
    (room room2 : ℕ) (E : S → Message → S → Type 0) (E2 : T → Message → T → Type 0)
    (serves : Serves source memory r room E) (serves2 : Serves target memory2 r room2 E2)
    (inside : r.bytes_count ≤ align_write part2 r.bytes_count)
    (fits : room2 ≤ align_write part2 r.bytes_count) where
  -- If no print fails and both programmers serve main, the file that READ leaves of a device as
  -- Intel hex, with its bytes below 256, is one from which WRITE stores exactly these bytes in the
  -- other device, whose memory is otherwise as before, or ends as that programmer says; a VERIFY of
  -- the file behind it succeeds with all the bytes, whatever malloc gives it as a buffer. READ
  -- itself always succeeds. The range has from 1 to 2147483392 bytes and ends below 2 ^ 32.
  pub read_action-write_action :
      (line old : List ℕ) (s : S) (t : T)
      → ((x : ℕ) → memory s x < 256)
      → r.bytes_count ≤ length old
      → Ends
          (λ file _.
            Ends
              (IsCopied target part2 memory memory2 r line old file s t)
              (E2 t)
              (write_action target part2 intel_hex r line file t))
          Never
          (read_action source part accepts intel_hex r s)
  read_action-write_action line old s t good holds =
      let bytes : List ℕ = bytes_at (memory s) r.start r.bytes_count in
      let len = length-bytes_at (memory s) r.start r.bytes_count in
      let bytes_good = bytes_at-IsByte (memory s) r.start r.bytes_count good in
      let stop : ℕ = u32 (r.start + r.bytes_count) in
      Ends-mono
        (λ file s2. (ihex_write accepts bytes r.start stop ≡ Io.ok file) × (memory s2 ≡ memory s))
        (λ file _.
          Ends (IsCopied target part2 memory memory2 r line old file s t) (E2 t)
            (write_action target part2 intel_hex r line file t))
        Never Never (read_action source part accepts intel_hex r s)
        (read_action-ihex_write accepts all r some_byte few below source part memory room E serves s
          good)
        (λ file s2 saved.
          Ends-mono (λ n u. (n ≡ r.bytes_count) × (memory2 u ≡ store (memory2 t) r.start bytes))
            (IsCopied target part2 memory memory2 r line old file s t) (E2 t) (E2 t)
            (write_action target part2 intel_hex r line file t)
            (write_action-store accepts all r some_byte few below target part2 memory2 room2 E2
              serves2 bytes line file t len bytes_good saved.0 inside fits)
            (λ n u h. (
              h.0,
              h.1,
              verify_action-same accepts all r some_byte few below target part2 memory2 room2 E2
                  serves2 bytes line file old u len bytes_good saved.0 holds
                  (ap (λ w. bytes_at w r.start r.bytes_count) h.1
                    ∙ ap (bytes_at (store (memory2 t) r.start bytes) r.start) (sym len)
                    ∙ bytes_at-store (memory2 t) r.start bytes),
            ))
            (λ message u e. e))
        (λ message s2 e. e)
