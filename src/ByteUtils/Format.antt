-- ===== src/ByteUtils/Format.antt =====
-- format_int stores the same bytes as the packing functions of stlink.c.
use stm8flash.Common.{ℕ, ◌≡◌, List, ◌∷◌, ◌++◌, some, arith}
use stm8flash.ByteUtils.{format_int, little_endian, big_endian}
use stm8flash.Stlink.{pack_int32, pack_int32_le}

-- format_int of four bytes stores the bytes of pack_int32 in big-endian order and those of
-- pack_int32_le in little-endian order, and leaves what stands behind them in `out`.
pub format_int-pack_int32 :
    (a b c d value : ℕ) (rest : List ℕ)
    → (format_int (a ∷ b ∷ c ∷ d ∷ rest) value 4 big_endian ≡ some (pack_int32 value ++ rest))
      × (format_int (a ∷ b ∷ c ∷ d ∷ rest) value 4 little_endian
          ≡ some (pack_int32_le value ++ rest))
unfolding format_int pack_int32 pack_int32_le
format_int-pack_int32 a b c d value rest = (ground arith, ground arith)
