-- ===== src/Main/Serves.antt =====
-- The actions of main on a programmer that serves them, with Intel hex files.
use stm8flash.Common.{
  ℕ, zero, suc, ◌+◌, ◌-◌, ◌≤◌, ◌<◌, ◌≡◌, refl, sym, subst, ap, ◌∙◌, List, [], ◌∷◌, ◌++◌, arith,
  Bool, true, if◌then◌else◌, ◌==◌,
}
use stm8flash.Common.{
  All, length, take, drop, replicate, length-replicate, length-append, length-drop,
  take-append_length, ltb, le→ltb_false, lt→ltb, u32,
}
use stm8flash.Device.{Device}
use stm8flash.Stdio.Bytes.{IsByte}
use stm8flash.Stdio.Output.{Io}
use stm8flash.Ihex.{ihex_write}
use stm8flash.Ihex.Reader.{ihex_read}
use stm8flash.Ihex.Prefix.{ihex_write-append}
use stm8flash.Ihex.RoundTrip.{ihex_read-ihex_write}
use stm8flash.Programmer.{Message, pure, exit, read_failed, Programmer, ◌>>=◌}
use stm8flash.Programmer.Ends.{Ends, Ends-and_then, Ends-mono}
use stm8flash.Programmer.Block.{same_bytes}
use stm8flash.Programmer.Memory.{bytes_at, bytes_at-append, length-bytes_at, store, take-bytes_at}
use stm8flash.Ihex.Reader as I
use stm8flash.Main.Buffer.{align_read-bounds}
use stm8flash.Main.{Request, intel_hex, align_read, align_write}
use stm8flash.Main.Action.{
  load_file, save_file, read_all, read_action, verify_action, write_action, reset_if_any,
}

abbrev pub Never : {S : Type 0} → Message → S → Type 0
Never message s = ⊥

-- What main relies on: a range is read as it stands in the memory, and written with exactly its
-- bytes, if the buffer has room for whole blocks, or else the program ends as `E` says; a reset
-- keeps the memory.
pub record Serves {S : Type 0} (pgm : Programmer S) (memory : S → ℕ → ℕ) (r : Request) (room : ℕ)
    (E : S → Message → S → Type 0) : Type 0 where
  pub reads :
      (s : S)
      → Ends
          (λ bytes t.
            (bytes ≡ bytes_at (memory s) r.start (align_read r.bytes_count))
            × (memory t ≡ memory s))
          Never
          (pgm.read_range r.start (align_read r.bytes_count) s)
  pub writes :
      (buf : List ℕ) (s : S)
      → room ≤ length buf
      → Ends
          (λ n t.
            (n ≡ r.bytes_count) × (memory t ≡ store (memory s) r.start (take r.bytes_count buf)))
          (E s)
          (pgm.write_range buf r.start r.bytes_count r.memtype s)
  pub resets : (s : S) → Ends (λ _ t. memory t ≡ memory s) Never (reset_if_any pgm.reset s)

pub bytes_at-IsByte :
    (mem : ℕ → ℕ) (a n : ℕ) → ((x : ℕ) → mem x < 256) → All IsByte (bytes_at mem a n)
bytes_at-IsByte mem a zero h = tt
bytes_at-IsByte mem a (suc n) h = (h a, bytes_at-IsByte mem (a + 1) n h)

same_bytes_refl : (xs : List ℕ) → same_bytes xs xs ≡ true
unfolding same_bytes
same_bytes_refl [] = refl
same_bytes_refl (x ∷ xs) =
    let t = same_bytes_refl xs in let e : (x == x) ≡ true = ground arith in rw (e, t) refl

file_of : Io → List ℕ
file_of (Io.ok file) = file
file_of _ = []

module _ (accepts : List ℕ → List ℕ → Bool) (all : (f t : List ℕ) → accepts f t ≡ true)
    (r : Request) (some_byte : 1 ≤ r.bytes_count) (few : r.bytes_count ≤ 2147483392)
    (below : r.start + r.bytes_count < 4294967296) where
  -- The file of some bytes, read into any buffer that holds them.
  read_back :
      (bytes line file old : List ℕ)
      → length bytes ≡ r.bytes_count
      → All IsByte bytes
      → ihex_write accepts bytes r.start (u32 (r.start + r.bytes_count)) ≡ Io.ok file
      → r.bytes_count ≤ length old
      → ihex_read r.start (u32 (r.start + r.bytes_count)) line file old
        ≡ I.ReadResult.returned r.bytes_count (bytes ++ drop r.bytes_count old)
  unfolding file_of
  read_back bytes line file old len good written room =
      let stop : ℕ = u32 (r.start + r.bytes_count) in
      let (file2, written2, back) =
        ihex_read-ihex_write accepts bytes r.start stop line old all (omega (arith, len))
          (omega (arith, len)) (omega arith) good (omega (arith, len)) in
      let same : file2 ≡ file = ap file_of (sym written2 ∙ written) in
      subst
        (λ f.
          ihex_read r.start stop line f old
          ≡ I.ReadResult.returned r.bytes_count (bytes ++ drop r.bytes_count old))
        same (back ∙ ap (λ n. I.ReadResult.returned n (bytes ++ drop n old)) len)

  module _ {S : Type 0} (pgm : Programmer S) (part : Device) (memory : S → ℕ → ℕ) (room : ℕ)
      (E : S → Message → S → Type 0) (serves : Serves pgm memory r room E) where
    read_all-bytes_at :
        (s : S)
        → Ends
            (λ bytes t.
              (bytes ≡ bytes_at (memory s) r.start (align_read r.bytes_count))
              × (memory t ≡ memory s))
            Never
            (read_all pgm part r s)
    unfolding read_all
    read_all-bytes_at s =
        let count : ℕ = align_read r.bytes_count in
        Ends-and_then
          (λ bytes t. (bytes ≡ bytes_at (memory s) r.start count) × (memory t ≡ memory s))
          (λ bytes t. (bytes ≡ bytes_at (memory s) r.start count) × (memory t ≡ memory s)) Never
          (pgm.read_range r.start count s)
          (λ buf. if ltb (length buf) count then exit read_failed else pure buf) (serves.reads s)
          (λ bytes t h.
            let len : length bytes ≡ count =
              ap length h.0 ∙ length-bytes_at (memory s) r.start count in
            rw (le→ltb_false (length bytes) count (omega (arith, len))) h)

    -- The file that READ leaves.
    pub read_action-ihex_write :
        (s : S)
        → ((x : ℕ) → memory s x < 256)
        → Ends
            (λ file t.
              (ihex_write accepts
                  (bytes_at (memory s) r.start r.bytes_count)
                  r.start
                  (u32 (r.start + r.bytes_count))
                ≡ Io.ok file)
              × (memory t ≡ memory s))
            Never
            (read_action pgm part accepts intel_hex r s)
    unfolding read_action save_file
    read_action-ihex_write s good =
        let count : ℕ = align_read r.bytes_count in
        let bytes : List ℕ = bytes_at (memory s) r.start r.bytes_count in
        let stop : ℕ = u32 (r.start + r.bytes_count) in
        let (whole, holds, close) = align_read-bounds r.bytes_count some_byte few in
        let len = length-bytes_at (memory s) r.start r.bytes_count in
        let (file, written, back) =
          ihex_read-ihex_write accepts bytes r.start stop [] bytes all (omega (arith, len))
            (omega (arith, len)) (omega arith)
            (bytes_at-IsByte (memory s) r.start r.bytes_count good) (omega arith) in
        Ends-and_then (λ b t. (b ≡ bytes_at (memory s) r.start count) × (memory t ≡ memory s))
          (λ f t. (ihex_write accepts bytes r.start stop ≡ Io.ok f) × (memory t ≡ memory s)) Never
          (read_all pgm part r s) (save_file accepts intel_hex r) (read_all-bytes_at s)
          (λ b t h.
            let rest : List ℕ =
              bytes_at (memory s) (r.start + r.bytes_count) (count - r.bytes_count) in
            let total : count ≡ r.bytes_count + (count - r.bytes_count) = omega arith in
            let split : b ≡ bytes ++ rest =
              h.0
              ∙ ap (bytes_at (memory s) r.start) total
              ∙ bytes_at-append (memory s) r.start r.bytes_count (count - r.bytes_count) in
            let saved : ihex_write accepts b r.start stop ≡ Io.ok file =
              ap (λ c. ihex_write accepts c r.start stop) split
              ∙ ihex_write-append accepts bytes rest r.start stop (omega (arith, len)) (omega arith)
              ∙ written in
            rw saved (written, h.1))

    -- WRITE of the file of some bytes.
    pub write_action-store :
        (bytes line file : List ℕ) (s : S)
        → length bytes ≡ r.bytes_count
        → All IsByte bytes
        → ihex_write accepts bytes r.start (u32 (r.start + r.bytes_count)) ≡ Io.ok file
        → r.bytes_count ≤ align_write part r.bytes_count
        → room ≤ align_write part r.bytes_count
        → Ends
            (λ n t. (n ≡ r.bytes_count) × (memory t ≡ store (memory s) r.start bytes))
            (E s)
            (write_action pgm part intel_hex r line file s)
    unfolding write_action load_file
    write_action-store bytes line file s len good_bytes saved inside fits =
        let zeros : List ℕ = replicate (align_write part r.bytes_count) 0 in
        let size = length-replicate {A = ℕ} (align_write part r.bytes_count) 0 in
        let buf : List ℕ = bytes ++ drop r.bytes_count zeros in
        let buf_size : length buf ≡ align_write part r.bytes_count =
          length-append bytes (drop r.bytes_count zeros)
          ∙ omega (arith, length-drop r.bytes_count zeros, size, len) in
        let front : take r.bytes_count buf ≡ bytes =
          take-append_length bytes (drop r.bytes_count zeros) r.bytes_count len in
        let Q : ℕ → S → Type 0 =
          λ n t. (n ≡ r.bytes_count) × (memory t ≡ store (memory s) r.start bytes) in
        rw
          (
            read_back bytes line file zeros len good_bytes saved (omega (arith, size)),
            lt→ltb r.bytes_count 2147483648 (omega arith),
          )
          (Ends-and_then
            (λ n t.
              (n ≡ r.bytes_count) × (memory t ≡ store (memory s) r.start (take r.bytes_count buf)))
            Q (E s) (pgm.write_range buf r.start r.bytes_count r.memtype s)
            (λ sent. reset_if_any pgm.reset >>= λ _. pure sent)
            (serves.writes buf s (omega (arith, buf_size)))
            (λ n t h.
              Ends-and_then (λ _ u. memory u ≡ memory t) Q (E s) (reset_if_any pgm.reset t)
                (λ _. pure n)
                (Ends-mono (λ _ u. memory u ≡ memory t) (λ _ u. memory u ≡ memory t) Never (E s)
                  (reset_if_any pgm.reset t) (serves.resets t) (λ _ u k. k)
                  (λ message u k. absurd k))
                (λ _ u k. (h.0, k ∙ h.1 ∙ ap (store (memory s) r.start) front))))

    -- VERIFY where the memory holds the bytes of the file.
    pub verify_action-same :
        (bytes line file old : List ℕ) (s : S)
        → length bytes ≡ r.bytes_count
        → All IsByte bytes
        → ihex_write accepts bytes r.start (u32 (r.start + r.bytes_count)) ≡ Io.ok file
        → r.bytes_count ≤ length old
        → bytes_at (memory s) r.start r.bytes_count ≡ bytes
        → Ends
            (λ n t. (n ≡ r.bytes_count) × (memory t ≡ memory s))
            Never
            (verify_action pgm part intel_hex r line file old s)
    unfolding verify_action load_file
    verify_action-same bytes line file old s len good_bytes saved holds equal =
        let count : ℕ = align_read r.bytes_count in
        let (whole, inside, close) = align_read-bounds r.bytes_count some_byte few in
        let loaded : List ℕ = bytes ++ drop r.bytes_count old in
        Ends-and_then (λ b t. (b ≡ bytes_at (memory s) r.start count) × (memory t ≡ memory s))
          (λ n t. (n ≡ r.bytes_count) × (memory t ≡ memory s)) Never (read_all pgm part r s) _
          (read_all-bytes_at s)
          (λ b t h.
            let front : take r.bytes_count b ≡ bytes =
              ap (take r.bytes_count) h.0
              ∙ take-bytes_at (memory s) r.start r.bytes_count count inside
              ∙ equal in
            let read_size : length b ≡ count =
              ap length h.0 ∙ length-bytes_at (memory s) r.start count in
            let loaded_size : length loaded ≡ length bytes + length (drop r.bytes_count old) =
              length-append bytes (drop r.bytes_count old) in
            let front2 : take r.bytes_count loaded ≡ bytes =
              take-append_length bytes (drop r.bytes_count old) r.bytes_count len in
            rw
              (
                read_back bytes line file old len good_bytes saved holds,
                lt→ltb r.bytes_count 2147483648 (omega arith),
                le→ltb_false (length b) r.bytes_count (omega (arith, read_size)),
                le→ltb_false (length loaded) r.bytes_count (omega (arith, loaded_size, len)),
                front,
                front2,
                same_bytes_refl bytes,
              )
              (refl, h.1))
