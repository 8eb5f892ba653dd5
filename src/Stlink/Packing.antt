-- ===== src/Stlink/Packing.antt =====
-- Packing and unpacking undo each other.
use stm8flash.Common.{
  ℕ, ◌+◌, ◌*◌, ◌/◌, ◌%◌, ◌<◌, ◌≡◌, ap, ap₂, ◌∙◌, List, ◌∷◌, ◌++◌, some, arith, u32, Option, ◌<<◌,
  ◌>>◌,
}
use stm8flash.Stlink.{
  pack_int16, pack_int32, pack_int32_le, unpack_int16, unpack_int16_le, unpack_int32,
}
use stm8flash.Stlink.{unpack_int32_le, Csw, unpack_usb_csw}

-- A 16-bit number is unpacked as it was packed, and its two bytes in the other order are unpacked
-- as the number with its bytes swapped.
pub unpack_int16-pack_int16 :
    (word : ℕ) (rest : List ℕ)
    → word < 65536
    → (unpack_int16 (pack_int16 word ++ rest) ≡ some word)
      × (unpack_int16_le (pack_int16 word ++ rest) ≡ some (word % 256 * 256 + word / 256))
unfolding unpack_int16 unpack_int16_le pack_int16
unpack_int16-pack_int16 word rest h = (ap some (omega arith), ap some (omega arith))

-- A 32-bit number is unpacked as it was packed, in either order of its bytes.
pub unpack_int32-pack_int32 :
    (word : ℕ) (rest : List ℕ)
    → word < 4294967296
    → (unpack_int32 (pack_int32 word ++ rest) ≡ some word)
      × (unpack_int32_le (pack_int32_le word ++ rest) ≡ some word)
unfolding unpack_int32 unpack_int32_le pack_int32 pack_int32_le
unpack_int32-pack_int32 word rest h = (ap some (omega arith), ap some (omega arith))

-- The value of four bytes.
abbrev join_bytes : ℕ → ℕ → ℕ → ℕ → ℕ
join_bytes a b c d = u32 ((a << 24) + (b << 16) + (c << 8) + d)

join_bytes-split :
    (w : ℕ)
    → w < 4294967296
    → join_bytes ((w >> 24) % 256) ((w >> 16) % 256) ((w >> 8) % 256) (w % 256) ≡ w
join_bytes-split w h = omega arith

-- A status block of the device, its signature and tag in big-endian and the residue in little-
-- endian order, is unpacked as it was sent.
pub unpack_usb_csw-pack_int32 :
    (csw : Csw) (rest : List ℕ)
    → csw.signature < 4294967296
    → csw.tag < 4294967296
    → csw.data_residue < 4294967296
    → unpack_usb_csw (
        pack_int32 csw.signature
        ++ (pack_int32 csw.tag ++ (pack_int32_le csw.data_residue ++ (csw.status ∷ rest))))
      ≡ some csw
unfolding unpack_usb_csw unpack_int32 unpack_int32_le pack_int32 pack_int32_le
unpack_usb_csw-pack_int32 csw rest hs ht hr =
    ap₂ (λ s t. unpacked s t (split csw.data_residue)) (join_bytes-split csw.signature hs)
      (join_bytes-split csw.tag ht)
    ∙ ap (unpacked csw.signature csw.tag) (join_bytes-split csw.data_residue hr)
  where
    split : ℕ → ℕ
    split w = join_bytes ((w >> 24) % 256) ((w >> 16) % 256) ((w >> 8) % 256) (w % 256)

    unpacked : ℕ → ℕ → ℕ → Option Csw
    unpacked s t d = some (record { signature = s; tag = t; data_residue = d; status = csw.status })
