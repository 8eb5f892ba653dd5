-- ===== src/StlinkV2/Write/Loop.antt =====
-- The loop over the blocks of a range.
use stm8flash.Common.{
  ℕ, zero, suc, ◌+◌, ◌-◌, ◌*◌, ◌%◌, ◌≤◌, ◌<◌, ◌≡◌, inl, inr, sym, ap, ap₂, ◌∙◌, List, ◌++◌, arith,
}
use stm8flash.Common.{
  true, if◌then◌else◌, Bool-cases, length as size_of, length-take, length-drop, take-add, drop-drop,
  u32, take, drop, le→ltb_false, lt→ltb,
}
use native.Mathlib.Nat.{add-mod_right}
use stm8flash.Device.{Device}
use stm8flash.Programmer.{Message, MemType, write_protected, block_programmed, pure}
use stm8flash.Programmer.Ends.{Ends, Ends-and_then, Ends-mono}
use stm8flash.Programmer.Block.{same_bytes, same_bytes-≡}
use stm8flash.Programmer.Memory.{
  bytes_at, store, store-append, store-bytes_at, bytes_at-store_behind, take-bytes_at,
  drop-bytes_at,
}
use stm8flash.Programmer.Chip.{Chip, IsStm8}
use stm8flash.StlinkV2.{Adapter}
use stm8flash.StlinkV2.Link.{Reaches}
use stm8flash.StlinkV2.Write.{program_block, write_blocks}
use stm8flash.StlinkV2.Write.Steps.{HasRegisters}
use stm8flash.StlinkV2.Write.Block.{IsStored, IsRefused, program_block-IsStored}

-- Bytes stored in front of others.
store-take :
    (mem mem1 mem2 : ℕ → ℕ) (a b n m : ℕ) (bytes rest : List ℕ)
    → n ≤ size_of bytes
    → a + n ≡ b
    → drop n bytes ≡ rest
    → mem1 ≡ store mem a (take n bytes)
    → mem2 ≡ store mem1 b (take m rest)
    → mem2 ≡ store mem a (take (n + m) bytes)
store-take mem mem1 mem2 a b n m bytes rest long next behind first second =
    let len : size_of (take n bytes) ≡ n = omega (arith, length-take n bytes) in
    let to : b ≡ a + size_of (take n bytes) = omega (arith, len) in
    second
    ∙ ap₂ (λ w c. store w c (take m rest)) first to
    ∙ sym (store-append mem a (take n bytes) (take m rest))
    ∙ ap (λ r. store mem a (take n bytes ++ take m r)) (sym behind)
    ∙ ap (store mem a) (sym (take-add n m bytes))

-- The program has ended at the first protected block: those in front of it are stored.
module _ {S : Type 0} (chip : Chip S) (block_size : ℕ) where
  abbrev pub IsStopped : ℕ → ℕ → List ℕ → S → Message → S → Type 0
  IsStopped k a bytes s message t =
      (message ≡ write_protected)
      × (n : ℕ) × (n < k)
      × (chip.is_protected (a + n * block_size) ≡ true)
      × (chip.memory t ≡ store (chip.memory s) a (take (n * block_size) bytes))

module _ {S : Type 0} (adapter : Adapter S) (chip : Chip S) (read_buf_size : ℕ)
    (reaches : Reaches adapter chip read_buf_size) (device : Device) (m : MemType)
    (stm8 : IsStm8 chip device.regs device.flash_block_size m)
    (registers : HasRegisters device.regs) (array : block_programmed m ≡ true)
    (small_blocks : device.flash_block_size < 65536)
    (some_block : 1 ≤ device.flash_block_size) where
  -- A block that is as it should be is left alone, and any other is programmed.
  round-IsStored :
      (new : List ℕ) (a : ℕ) (s : S)
      → size_of new ≡ device.flash_block_size
      → a % device.flash_block_size ≡ 0
      → a < 4294967296
      → chip.unlocked s ≡ true
      → Ends (IsStored chip a new s) (IsRefused chip a s) (
          (if same_bytes (bytes_at (chip.memory s) a device.flash_block_size) new
              then pure tt
              else program_block adapter device
                  (bytes_at (chip.memory s) a device.flash_block_size)
                  new
                  a
                  m)
            s)
  round-IsStored new a s len aligned below open_array =
      let size : ℕ = device.flash_block_size in
      let old : List ℕ = bytes_at (chip.memory s) a size in
      elim (Bool-cases (same_bytes old new)) [
        | inl same ↦ rw same (
          sym (store-bytes_at (chip.memory s) a size)
              ∙ ap (store (chip.memory s) a) (same_bytes-≡ old new same),
          open_array,
        )
        | inr other ↦ rw other (
            program_block-IsStored adapter chip read_buf_size reaches device m stm8 registers array
              small_blocks new a s len aligned below open_array)
      ]

  -- `k` blocks are left from `i` on.
  pub write_blocks-IsStored :
      (k fuel : ℕ) (current buffer : List ℕ) (start length i : ℕ) (s : S)
      → k ≤ fuel
      → length ≤ i + k * device.flash_block_size
      → i + k * device.flash_block_size < length + device.flash_block_size
      → drop i current ≡ bytes_at (chip.memory s) (start + i) (k * device.flash_block_size)
      → i + k * device.flash_block_size ≤ size_of buffer
      → (start + i) % device.flash_block_size ≡ 0
      → start + i + k * device.flash_block_size < 4294967296
      → chip.unlocked s ≡ true
      → Ends
          (IsStored chip (start + i) (take (k * device.flash_block_size) (drop i buffer)) s)
          (IsStopped chip device.flash_block_size k (start + i) (drop i buffer) s)
          (write_blocks adapter device fuel current buffer start length i m s)
  unfolding write_blocks
  write_blocks-IsStored zero zero current buffer start length i s enough to close now room aligned
        below open_array =
      let no_block : 0 ≡ 0 * device.flash_block_size = omega arith in
      rw (le→ltb_false i length (omega arith))
        (ap (λ n. store (chip.memory s) (start + i) (take n (drop i buffer))) no_block, open_array)
  write_blocks-IsStored zero (suc fuel) current buffer start length i s enough to close now room
        aligned below open_array =
      let no_block : 0 ≡ 0 * device.flash_block_size = omega arith in
      rw (le→ltb_false i length (omega arith))
        (ap (λ n. store (chip.memory s) (start + i) (take n (drop i buffer))) no_block, open_array)
  write_blocks-IsStored (suc k) zero current buffer start length i s enough to close now room
        aligned below open_array =
      absurd (omega arith)
  write_blocks-IsStored (suc k) (suc fuel) current buffer start length i s enough to close now room
        aligned below open_array =
      let size : ℕ = device.flash_block_size in
      let a : ℕ = start + i in
      let more : suc k * size ≡ size + k * size = omega arith in
      let no_block : 0 ≡ 0 * size = omega arith in
      let first : a + 0 * size ≡ a = omega arith in
      let here : u32 a ≡ a = omega arith in
      let left : List ℕ = drop i buffer in
      let new : List ℕ = take size left in
      let left_size : size_of left ≡ size_of buffer - i = length-drop i buffer in
      let len : size_of new ≡ size = omega (arith, length-take size left) in
      let old_is : take size (drop i current) ≡ bytes_at (chip.memory s) a size =
        ap (take size) now ∙ take-bytes_at (chip.memory s) a size (suc k * size) (omega arith) in
      let next : a + size ≡ start + (i + size) = omega arith in
      let still : (start + (i + size)) % size ≡ 0 =
        ap (λ n. n % size) (sym next) ∙ add-mod_right a size ∙ aligned in
      let fewer : suc k * size - size ≡ k * size = omega arith in
      let behind : drop (i + size) current
          ≡ bytes_at (chip.memory s) (start + (i + size)) (k * size) =
        sym (drop-drop i size current)
        ∙ ap (drop size) now
        ∙ drop-bytes_at (chip.memory s) a size (suc k * size)
        ∙ ap₂ (bytes_at (chip.memory s)) next fewer in
      rw (lt→ltb i length (omega arith), old_is, here)
        (Ends-and_then (IsStored chip a new s) (IsStored chip a (take (suc k * size) left) s)
          (IsStopped chip device.flash_block_size (suc k) a left s)
          ((if same_bytes (bytes_at (chip.memory s) a size) new
              then pure tt
              else program_block adapter device (bytes_at (chip.memory s) a size) new a m)
            s)
          (λ _. write_blocks adapter device fuel current buffer start length (i + size) m)
          (Ends-mono (IsStored chip a new s) (IsStored chip a new s) (IsRefused chip a s)
            (IsStopped chip device.flash_block_size (suc k) a left s) _
            (round-IsStored new a s len aligned (omega arith) open_array) (λ _ t h. h)
            (λ message t h. (
              h.0,
              0,
              omega arith,
              ap chip.is_protected first ∙ h.1,
              h.2 ∙ ap (λ n. store (chip.memory s) a (take n left)) no_block,
            )))
          (λ _ t h.
            Ends-mono
              (IsStored chip (start + (i + size)) (take (k * size) (drop (i + size) buffer)) t)
              (IsStored chip a (take (suc k * size) left) s)
              (IsStopped chip device.flash_block_size k (start + (i + size))
                (drop (i + size) buffer) t)
              (IsStopped chip device.flash_block_size (suc k) a left s)
              (write_blocks adapter device fuel current buffer start length (i + size) m t)
              (write_blocks-IsStored k fuel current buffer start length (i + size) t (omega arith)
                (omega arith) (omega arith)
                (behind
                  ∙ sym (
                      bytes_at-store_behind (chip.memory s) a new (start + (i + size)) (k * size)
                        (omega (arith, len, next)))
                  ∙ ap (λ w. bytes_at w (start + (i + size)) (k * size)) (sym h.0))
                (omega arith) still (omega arith) h.1)
              (λ _ u g. (
                store-take (chip.memory s) (chip.memory t) (chip.memory u) a (start + (i + size))
                      size (k * size) left (drop (i + size) buffer) (omega (arith, left_size)) next
                      (drop-drop i size buffer) h.0 g.0
                    ∙ ap (λ n. store (chip.memory s) a (take n left)) (sym more),
                g.1,
              ))
              (λ message u (e, n, few, protected, mem).
                let later : suc n * size ≡ size + n * size = omega arith in
                let place : start + (i + size) + n * size ≡ a + suc n * size = omega arith in
                (
                  e,
                  suc n,
                  omega arith,
                  ap chip.is_protected (sym place) ∙ protected,
                  store-take (chip.memory s) (chip.memory t) (chip.memory u) a (start + (i + size))
                        size (n * size) left (drop (i + size) buffer) (omega (arith, left_size))
                        next (drop-drop i size buffer) h.0 mem
                      ∙ ap (λ j. store (chip.memory s) a (take j left)) (sym later),
                ))))
