-- ===== src/Main/Action.antt =====
-- main.c: what main does with the programmer once the range is known: the actions READ, VERIFY,
-- WRITE, UNLOCK and RESET. A file is its characters; that it opens and malloc succeeds is supposed.
use stm8flash.Common.{
  ℕ, ◌+◌, List, [], ◌∷◌, ◌++◌, Option, none, some, Bool, ltb, ◌||◌, if◌then◌else◌,
}
use stm8flash.Common.{length, take, drop, replicate, u32}
use stm8flash.Device.{Device, RopType, rop_unknown, rop_stm8s, rop_stm8l}
use stm8flash.Stdio.Output.{Io}
use stm8flash.Ihex.{ihex_write}
use stm8flash.Ihex.Reader.{ihex_read}
use stm8flash.Srec.{srec_write}
use stm8flash.Srec.Reader.{srec_read}
use stm8flash.Programmer.{
  Cmd, pure, exit, fault, endless, read_failed, file_failed, not_verified, no_unlocking_mode,
  Programmer, ◌>>=◌, ◌>>◌,
}
use stm8flash.Programmer.Block.{same_bytes}
use stm8flash.Main.{
  Request, FileFormat, intel_hex, motorola_s_record, raw_binary, align_read, align_write,
  unlock_bytes,
}
use stm8flash.Ihex.Reader as I
use stm8flash.Srec.Reader as R

module _ {S : Type 0} where
  -- What a reading function returns, with its buffer; its own messages end the program, and of
  -- ihex_read a negative number too.
  abbrev ihex_result : I.ReadResult → Cmd S (ℕ × List ℕ)
  ihex_result (I.ReadResult.returned n buf) =
      if ltb n 2147483648 then pure (n, buf) else exit file_failed
  ihex_result I.ReadResult.fault = λ _. fault
  ihex_result I.ReadResult.stuck = λ _. endless
  ihex_result _ = exit file_failed

  abbrev srec_result : R.ReadResult → Cmd S (ℕ × List ℕ)
  srec_result (R.ReadResult.returned n buf) = pure (n, buf)
  srec_result R.ReadResult.fault = λ _. fault
  srec_result R.ReadResult.stuck = λ _. endless
  srec_result _ = exit file_failed

  -- fread of so many bytes at most over the front of a buffer.
  unfoldable pub read_raw : ℕ → List ℕ → List ℕ → Cmd S (ℕ × List ℕ)
  read_raw count file buf =
      let bytes = take count file in
      if ltb (length buf) (length bytes)
      then (λ _. fault)
      else pure (count, bytes ++ drop (length bytes) buf)

  -- The number of bytes, and the buffer into which the file was read. `line` is the static array of
  -- the reading function.
  unfoldable pub load_file : FileFormat → Request → List ℕ → List ℕ → List ℕ → Cmd S (ℕ × List ℕ)
  unfolding ihex_read srec_read read_raw
  load_file intel_hex r line file buf =
      ihex_result (ihex_read r.start (u32 (r.start + r.bytes_count)) line file buf)
  load_file motorola_s_record r line file buf =
      srec_result (srec_read r.start (u32 (r.start + r.bytes_count)) line file buf)
  load_file raw_binary r line file buf =
      let all = if ltb r.bytes_count (length file) then r.bytes_count else length file in
      read_raw (if r.bytes_count_specified then r.bytes_count else all) file buf

  -- The file that is written, where a print of ihex_write that fails ends the program.
  abbrev written_file : Io → Cmd S (List ℕ)
  written_file (Io.ok file) = pure file
  written_file Io.io_error = exit file_failed
  written_file Io.fault = λ _. fault
  written_file Io.stuck = λ _. endless

  unfoldable pub save_file :
      (List ℕ → List ℕ → Bool) → FileFormat → Request → List ℕ → Cmd S (List ℕ)
  unfolding ihex_write srec_write
  save_file accepts intel_hex r buf =
      written_file (ihex_write accepts buf r.start (u32 (r.start + r.bytes_count)))
  save_file accepts motorola_s_record r buf =
      written_file (srec_write accepts buf r.start (u32 (r.start + r.bytes_count)))
  save_file accepts raw_binary r buf = pure (take r.bytes_count buf)

  abbrev pub reset_if_any : Option (Cmd S (Unit {0})) → Cmd S (Unit {0})
  reset_if_any none = pure tt
  reset_if_any (some reset) = reset

  module _ (pgm : Programmer S) (part : Device) where
    -- read_range of whole blocks of 256 bytes, all of which must arrive.
    unfoldable pub read_all : Request → Cmd S (List ℕ)
    read_all r =
        let count = align_read r.bytes_count in
        let complete : List ℕ → Cmd S (List ℕ) =
          λ buf. if ltb (length buf) count then exit read_failed else pure buf in
        pgm.read_range r.start count >>= complete

    unfoldable pub read_action : (List ℕ → List ℕ → Bool) → FileFormat → Request → Cmd S (List ℕ)
    unfolding read_all save_file
    read_action accepts format r = do buf ← read_all r; save_file accepts format r buf

    -- `buf2` is what malloc gives. `fault` is a memcmp of more bytes than a buffer holds. The result
    -- is the number of the bytes that were compared.
    unfoldable pub verify_action : FileFormat → Request → List ℕ → List ℕ → List ℕ → Cmd S ℕ
    unfolding read_all load_file
    verify_action format r line file buf2 =
        let compared : List ℕ → ℕ × List ℕ → Cmd S ℕ = λ buf (n, loaded).
          if ltb (length buf) n || ltb (length loaded) n
          then (λ _. fault)
          else if same_bytes (take n buf) (take n loaded)
          then pure n
          else exit not_verified in
        do buf ← read_all r; loaded ← load_file format r line file buf2; compared buf loaded

    -- The number of bytes that write_range returns, which main prints.
    unfoldable pub write_action : FileFormat → Request → List ℕ → List ℕ → Cmd S ℕ
    unfolding load_file
    write_action format r line file =
        let written : ℕ × List ℕ → Cmd S ℕ = λ (n, buf). do
          sent ← pgm.write_range buf r.start n r.memtype
          reset_if_any pgm.reset
          pure sent
        in load_file format r line file (replicate (align_write part r.bytes_count) 0) >>= written

    unfoldable pub unlock_range : RopType → Request → Cmd S ℕ
    unlock_range rop_unknown r = exit no_unlocking_mode
    unlock_range rop_stm8s r =
        pgm.write_range (unlock_bytes part.option_bytes_size 0) r.start part.option_bytes_size
          r.memtype
    unlock_range rop_stm8l r = do
      first ← pgm.write_range (0xaa ∷ []) r.start 1 r.memtype
      pgm.write_range (0xaa ∷ []) r.start 1 r.memtype

    unfoldable pub unlock_action : Request → Cmd S ℕ
    unfolding unlock_range
    unlock_action r = do
      sent ← unlock_range part.read_out_protection_mode r
      reset_if_any pgm.reset
      pure sent

    -- A reset that is not set is called all the same.
    unfoldable pub reset_action : Cmd S (Unit {0})
    reset_action = elim pgm.reset [ none ↦ (λ _. fault) | some reset ↦ reset ]
