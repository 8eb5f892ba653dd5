-- ===== src/Srec/AnyChunk.antt =====
-- The records of an S-record file, over any line: what is read and stored outside the arrays.
use stm8flash.Common.{
  ℕ, ◌+◌, ◌*◌, ◌/◌, ◌≤◌, ◌<◌, ◌≡◌, ◌∙◌, List, [], ◌∷◌, true, arith, set, inl, inr, Bool-cases,
  Option-cases, by_if, if◌then◌else◌, not, length-set, length-drop, sub32, u32, u8, ltb, ltb→lt,
  ◌==◌, drop, length,
}
use stm8flash.Stdio.{scan_hex}
use stm8flash.Srec.Reader.{
  Reader, Chunk, Round, data_byte, store_byte, data_loop, check_sum, end_index, read_chunk,
  header_sum,
}
use stm8flash.Srec.Safety.{
  Round-cases, Sum-cases, IsSound, IsRound, IsSum, IsFlow, halt-IsStop, next-IsSound, halted-IsStop,
  summed-IsSound, continues, sums, stops, goes,
}

-- A chunk that is read where an access outside an array is as it says.
module _ (start end size : ℕ) (k : Chunk) (Outside : Type 0) (far : 516 ≤ end_index k → Outside)
    (out : (i : ℕ)
      → 2 * (k.chunk_type + 3) ≤ i
      → i < end_index k
      → k.data_record ≡ true
      → start ≤ k.chunk_addr
      → u32 (k.chunk_addr + k.data_len) ≤ end
      → size ≤ u32 (sub32 k.chunk_addr start + sub32 i 8 / 2)
      → Outside) where
  store_byte-IsRound :
      (i byte : ℕ) (r : Reader)
      → IsSound end size r
      → 2 * (k.chunk_type + 3) ≤ i
      → i < end_index k
      → k.data_record ≡ true
      → start ≤ k.chunk_addr
      → u32 (k.chunk_addr + k.data_len) ≤ end
      → IsRound end size Outside (store_byte start end k i byte r)
  unfolding store_byte
  store_byte-IsRound i byte r sound from to data_record low inside =
      by_if (IsRound end size Outside) (ltb index (length r.buf)) (λ e. continues {r = stored} kept)
        (λ e. IsRound.halts (out i from to data_record low inside (ground (arith, sound.buf_size))))
    where
      index : ℕ
      index = u32 (sub32 k.chunk_addr start + sub32 i 8 / 2)

      top : ℕ
      top = u32 (k.chunk_addr + k.data_len)

      stored : Reader
      stored = record r {
        greatest_addr = if ltb r.greatest_addr top then top else r.greatest_addr;
        buf = set r.buf index (u8 byte);
      }

      kept : IsSound end size stored
      kept = record {
        line_size = sound.line_size;
        buf_size = length-set r.buf index (u8 byte) ∙ sound.buf_size;
        greatest = ground (arith, sound.greatest);
      }

  data_byte-IsRound :
      (i byte : ℕ) (r : Reader)
      → IsSound end size r
      → 2 * (k.chunk_type + 3) ≤ i
      → i < end_index k
      → IsRound end size Outside (data_byte start end k i byte r)
  unfolding data_byte
  data_byte-IsRound i byte r sound from to =
      by_if P (not k.data_record) (λ e. continues sound)
        (λ data_record.
          by_if P (ltb k.chunk_addr start) (λ e. IsRound.halts tt)
            (λ low.
              by_if P (ltb end (u32 (k.chunk_addr + k.data_len))) (λ e. IsRound.halts tt)
                (λ inside.
                  store_byte-IsRound i byte r sound from to (ground arith) (ground arith)
                    (ground arith))))
    where
      P : Round → Type 0
      P = IsRound end size Outside

  data_loop-IsSum :
      (s : List ℕ) (i sum : ℕ) (r : Reader)
      → IsSound end size r
      → 2 * (k.chunk_type + 3) ≤ i
      → 516 ≤ length s + i
      → IsSum end size Outside (data_loop start end k (end_index k) s i sum r)
  unfolding data_loop
  data_loop-IsSum [] i sum r sound from holds =
      by_if (IsSum end size Outside) (ltb i (end_index k)) (λ e. IsSum.halts (far (ground arith)))
        (λ e. sums sound)
  data_loop-IsSum (c ∷ []) i sum r sound from holds =
      by_if (IsSum end size Outside) (ltb i (end_index k)) (λ e. IsSum.halts (far (ground arith)))
        (λ e. sums sound)
  data_loop-IsSum (c ∷ d ∷ s) i sum r sound from holds = elim (Bool-cases (ltb i (end_index k))) [
    | inr done ↦ rw (done, data_loop) (sums sound)
    | inl more ↦ elim (Option-cases (scan_hex 2 (c ∷ d ∷ s))) [
      | inl bad ↦ rw (more, bad, data_loop) (IsSum.halts tt)
      | inr ((byte, t), good) ↦
          let round = data_byte-IsRound i byte r sound from (ltb→lt i (end_index k) more) in
          elim (Round-cases (data_byte start end k i byte r)) [
            | inl (e, early) ↦
                rw (more, good, early, data_loop) (IsSum.halts (halt-IsStop (rw early at round)))
            | inr (r', continued) ↦
                rw (more, good, continued, data_loop)
                  (data_loop-IsSum s (i + 2) (u32 (sum + byte)) r'
                    (next-IsSound (rw continued at round)) (omega arith) (omega arith))
          ]
    ]
  ]

  check_sum-IsFlow :
      (sum : ℕ) (r : Reader)
      → IsSound end size r
      → IsFlow end size Outside (check_sum k (end_index k) sum r)
  unfolding check_sum
  check_sum-IsFlow sum r sound = elim (Bool-cases (ltb (end_index k) (length r.line))) [
    | inr outside ↦ rw (outside, check_sum) (stops (far (ground (arith, sound.line_size))))
    | inl inside ↦ elim (Option-cases (scan_hex 2 (drop (end_index k) r.line))) [
      | inl bad ↦ rw (inside, bad, check_sum) (stops tt)
      | inr ((byte, t), good) ↦
          rw (inside, good, check_sum)
            (by_if (IsFlow end size Outside) (u8 (sum + byte) == 255)
              (λ e. goes (record {
                line_size = sound.line_size;
                buf_size = sound.buf_size;
                greatest = sound.greatest;
              }))
              (λ e. stops tt))
    ]
  ]

  pub read_chunk-IsFlow :
      (r : Reader) → IsSound end size r → IsFlow end size Outside (read_chunk start end k r)
  unfolding read_chunk
  read_chunk-IsFlow r sound =
      let first = 2 * (k.chunk_type + 3) in
      let sum = header_sum k.chunk_len k.chunk_addr in
      let loop =
        data_loop-IsSum (drop first r.line) first sum r sound (omega arith)
          (omega (arith, length-drop first r.line, sound.line_size)) in
      elim (Sum-cases (data_loop start end k (end_index k) (drop first r.line) first sum r)) [
        | inl (e, early) ↦ rw (early, read_chunk) (stops (halted-IsStop (rw early at loop)))
        | inr (total, r', through) ↦
            rw (through, read_chunk)
              (check_sum-IsFlow total r' (summed-IsSound (rw through at loop)))
      ]
