-- ===== src/Stlink.antt =====
-- stlink.c: the packing of numbers and of the SCSI commands that an ST-LINK V1 takes over USB. The
-- transfers themselves are not modelled.
pub mod Packing
pub mod Swim
pub mod Session
pub mod Range
pub mod Attempts
mod Tests
use stm8flash.Common.{
  ℕ, zero, suc, ◌+◌, ◌*◌, ◌/◌, ◌%◌, List, [], ◌∷◌, ◌++◌, Option, none, some, u16, u32, ◌>>◌, ◌<<◌,
  drop,
}

-- A function that packs a number gives the bytes that it stores from `out` on.
unfoldable pub pack_int16 : ℕ → List ℕ
pack_int16 word = ((word >> 8) % 256) ∷ (word % 256) ∷ []

unfoldable pub pack_int32 : ℕ → List ℕ
pack_int32 word =
    ((word >> 24) % 256) ∷ ((word >> 16) % 256) ∷ ((word >> 8) % 256) ∷ (word % 256) ∷ []

unfoldable pub pack_int32_le : ℕ → List ℕ
pack_int32_le word =
    (word % 256) ∷ ((word >> 8) % 256) ∷ ((word >> 16) % 256) ∷ ((word >> 24) % 256) ∷ []

-- A function that unpacks gives `none` where it reads outside the block.
unfoldable pub unpack_int16 : List ℕ → Option ℕ
unpack_int16 (a ∷ b ∷ block) = some (u16 ((a << 8) + b))
unpack_int16 _ = none

unfoldable pub unpack_int16_le : List ℕ → Option ℕ
unpack_int16_le (a ∷ b ∷ block) = some (u16 ((b << 8) + a))
unpack_int16_le _ = none

unfoldable pub unpack_int32 : List ℕ → Option ℕ
unpack_int32 (a ∷ b ∷ c ∷ d ∷ block) = some (u32 ((a << 24) + (b << 16) + (c << 8) + d))
unpack_int32 _ = none

unfoldable pub unpack_int32_le : List ℕ → Option ℕ
unpack_int32_le (a ∷ b ∷ c ∷ d ∷ block) = some (u32 ((d << 24) + (c << 16) + (b << 8) + a))
unpack_int32_le _ = none

-- scsi_usb_cbw of stlink.h: the block that wraps a command. `cb` holds 16 bytes.
pub record Cbw : Type 0 where
  pub signature : ℕ
  pub tag : ℕ
  pub transfer_length : ℕ
  pub flags : ℕ
  pub lun : ℕ
  pub cblength : ℕ
  pub cb : List ℕ

-- scsi_usb_csw of stlink.h: the block that wraps a status.
pub record Csw : Type 0 where
  pub signature : ℕ
  pub tag : ℕ
  pub data_residue : ℕ
  pub status : ℕ

unfoldable pub pack_usb_cbw : Cbw → List ℕ
unfolding pack_int32 pack_int32_le
pack_usb_cbw cbw =
    pack_int32 cbw.signature
    ++ (pack_int32 cbw.tag
        ++ (pack_int32_le cbw.transfer_length ++ (cbw.flags ∷ cbw.lun ∷ cbw.cblength ∷ cbw.cb)))

infixl 5 ◌>>=◌
abbrev ◌>>=◌ : Option ℕ → (ℕ → Option Csw) → Option Csw
none >>= f = none
some a >>= f = f a

abbrev first_byte : List ℕ → Option ℕ
first_byte [] = none
first_byte (b ∷ block) = some b

unfoldable pub unpack_usb_csw : List ℕ → Option Csw
unfolding unpack_int32 unpack_int32_le
unpack_usb_csw block = do
  signature ← unpack_int32 block
  tag ← unpack_int32 (drop 4 block)
  data_residue ← unpack_int32_le (drop 8 block)
  status ← first_byte (drop 12 block)
  some (record { signature = signature; tag = tag; data_residue = data_residue; status = status })
