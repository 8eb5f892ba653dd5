-- ===== src/Stlink/Tests.antt =====
-- The theorems on stlink.c at concrete inputs.
use stm8flash.Common.{◌≡◌, refl, [], ◌∷◌, ◌++◌, some, arith, replicate, length}
use stm8flash.Stlink.{
  pack_int16, pack_int32, pack_int32_le, unpack_int16, unpack_int16_le, unpack_int32,
}
use stm8flash.Stlink.{unpack_int32_le, Cbw, Csw, unpack_usb_csw}
use stm8flash.Stlink.Packing.{unpack_int16-pack_int16, unpack_int32-pack_int32}
use stm8flash.Stlink.Packing.{unpack_usb_csw-pack_int32}
use stm8flash.Common.{ℕ, ◌+◌, true, ◌==◌, ltb, if◌then◌else◌, u16, ◌<<◌}
use stm8flash.Programmer.{ok}
use stm8flash.Programmer.Ends.{Ends}
use stm8flash.Stlink.Swim.{Usb, write_attempt, stlink_swim_write_byte}
use stm8flash.Stlink.Attempts.{IsAttempt, stlink_swim_write_byte-IsAttempt}

abbrev ready : Cbw
ready = record {
  signature = 0x55534243;
  tag = 0x707ec281;
  transfer_length = 0;
  flags = 0;
  lun = 0;
  cblength = 6;
  cb = replicate 16 0;
}

abbrev passed : Csw
passed = record { signature = 0x55534243; tag = 0x707ec281; data_residue = 2; status = 0 }

unpack_int16-pack_int16_example :
    (unpack_int16 (pack_int16 0x1234 ++ []) ≡ some 0x1234)
    × (unpack_int16_le (pack_int16 0x1234 ++ []) ≡ some 0x3412)
unpack_int16-pack_int16_example = unpack_int16-pack_int16 0x1234 [] (omega arith)

unpack_int32-pack_int32_example :
    (unpack_int32 (pack_int32 0x55534243 ++ []) ≡ some 0x55534243)
    × (unpack_int32_le (pack_int32_le 0x55534243 ++ []) ≡ some 0x55534243)
unpack_int32-pack_int32_example = unpack_int32-pack_int32 0x55534243 [] (omega arith)

unpack_usb_csw-pack_int32_example :
    unpack_usb_csw
      (pack_int32 0x55534243 ++ (pack_int32 0x707ec281 ++ (pack_int32_le 2 ++ (0 ∷ []))))
    ≡ some passed
unpack_usb_csw-pack_int32_example =
    unpack_usb_csw-pack_int32 passed [] (omega arith) (omega arith) (omega arith)

-- A device that takes every command, and whose status has both flags until it was read twice.
abbrev flags : ℕ → ℕ
flags s = u16 ((0 << 8) + (if ltb s 2 then 5 else 0))

abbrev full_usb : Usb ℕ
full_usb = record {
  bulk_out = λ bytes s. ((true, length bytes), s);
  bulk_in = λ size s.
      if size == 13
      then ((true, replicate 13 0), s)
      else ((true, (if ltb s 2 then 5 else 0) ∷ 0 ∷ 0 ∷ 0 ∷ []), s + 1);
}

full_answered : (s : ℕ) → write_attempt full_usb 0x56 0x5062 s ≡ ok (flags s) (s + 1)
unfolding write_attempt
full_answered s = refl

third_attempt : stlink_swim_write_byte full_usb 0x56 0x5062 0 ≡ ok 0 3
unfolding stlink_swim_write_byte
third_attempt = refl

stlink_swim_write_byte-IsAttempt_example :
    Ends
      (IsAttempt flags (λ s. s + 1) 4 0)
      (λ _ _. ⊥)
      (stlink_swim_write_byte full_usb 0x56 0x5062 0)
stlink_swim_write_byte-IsAttempt_example =
    stlink_swim_write_byte-IsAttempt full_usb 0x56 0x5062 flags (λ s. s + 1) full_answered 0
