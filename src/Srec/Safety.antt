-- ===== src/Srec/Safety.antt =====
-- What the loops of srec_read keep, and what stops them.
use stm8flash.Common.{ℕ, ◌+◌, ◌-◌, ◌*◌, ◌≤◌, ◌<◌, ◌≡◌, ◌>>◌}
use stm8flash.Common.{◌⊎◌, inl, inr, length}
use stm8flash.Srec.Reader.{Reader, Header, Round, Sum, Flow, ReadResult, halt, next, halted, summed}
use stm8flash.Srec.Reader.{returned, fault}
use stm8flash.Srec.Reader.{stop, go, stuck}
use stm8flash.Srec.Reader.{}

pub Round-cases : (x : Round) → ((e : ReadResult) × (x ≡ halt e)) ⊎ ((r : Reader) × (x ≡ next r))
Round-cases (halt e) = inl (e, λ i. halt e)
Round-cases (next r) = inr (r, λ i. next r)

pub Sum-cases :
    (x : Sum)
    → ((e : ReadResult) × (x ≡ halted e)) ⊎ ((sum : ℕ) × (r : Reader) × (x ≡ summed sum r))
Sum-cases (halted e) = inl (e, λ i. halted e)
Sum-cases (summed sum r) = inr (sum, r, λ i. summed sum r)

pub Flow-cases : (x : Flow) → ((e : ReadResult) × (x ≡ stop e)) ⊎ ((r : Reader) × (x ≡ go r))
Flow-cases (stop e) = inl (e, λ i. stop e)
Flow-cases (go r) = inr (r, λ i. go r)

-- What the loops keep: the sizes of the arrays, and the range of the addresses.
pub record IsSound (end size : ℕ) (r : Reader) : Type 0 where
  pub line_size : length r.line ≡ 516
  pub buf_size : length r.buf ≡ size
  pub greatest : r.greatest_addr ≤ end

-- What stops a line: an error message, or an access outside an array if `Outside`; never a return.
abbrev pub IsStop : Type 0 → ReadResult → Type 0
IsStop Outside (returned n buf) = ⊥
IsStop Outside fault = Outside
IsStop Outside stuck = ⊥
IsStop Outside _ = Unit

pub data IsRound (end size : ℕ) (Outside : Type 0) : Round → Type 0 where
  halts : {e : ReadResult} → IsStop Outside e → IsRound end size Outside (halt e)
  continues : {r : Reader} → IsSound end size r → IsRound end size Outside (next r)

pub data IsSum (end size : ℕ) (Outside : Type 0) : Sum → Type 0 where
  halts : {e : ReadResult} → IsStop Outside e → IsSum end size Outside (halted e)
  sums : {sum : ℕ} {r : Reader} → IsSound end size r → IsSum end size Outside (summed sum r)

pub data IsFlow (end size : ℕ) (Outside : Type 0) : Flow → Type 0 where
  stops : {e : ReadResult} → IsStop Outside e → IsFlow end size Outside (stop e)
  goes : {r : Reader} → IsSound end size r → IsFlow end size Outside (go r)

module _ {end size : ℕ} {Outside : Type 0} where
  pub halt-IsStop : {e : ReadResult} → IsRound end size Outside (halt e) → IsStop Outside e
  halt-IsStop (IsRound.halts h) = h

  pub next-IsSound : {r : Reader} → IsRound end size Outside (next r) → IsSound end size r
  next-IsSound (continues h) = h

  pub halted-IsStop : {e : ReadResult} → IsSum end size Outside (halted e) → IsStop Outside e
  halted-IsStop (IsSum.halts h) = h

  pub summed-IsSound :
      {sum : ℕ} {r : Reader} → IsSum end size Outside (summed sum r) → IsSound end size r
  summed-IsSound (sums h) = h

  pub stop-IsStop : {e : ReadResult} → IsFlow end size Outside (stop e) → IsStop Outside e
  stop-IsStop (stops h) = h

  pub go-IsSound : {r : Reader} → IsFlow end size Outside (go r) → IsSound end size r
  go-IsSound (goes h) = h

-- A record of which an access outside an array is to be feared. Its length, which may have been read
-- with a sign, goes past the array of the line; or it is a data record whose address and number of
-- bytes `n` go past 2 ^ 32, or whose bytes, which are put one or two places too far if its address
-- has three or four bytes, then go past the buffer.
pub data Escapes (start end size : ℕ) (h : Header) : Type 0 where
  behind_line : 516 ≤ 2 * (h.len + 1) → Escapes start end size h
  wraps :
      (n : ℕ)
      → h.len ≡ n + (h.kind + 2)
      → 4294967296 ≤ (h.addr >> (8 * (3 - h.kind))) + n
      → Escapes start end size h
  too_far :
      (n : ℕ)
      → h.len ≡ n + (h.kind + 2)
      → 2 ≤ h.kind
      → (h.addr >> (8 * (3 - h.kind))) + n ≤ end
      → size < (h.addr >> (8 * (3 - h.kind))) - start + n + (h.kind - 1)
      → Escapes start end size h
