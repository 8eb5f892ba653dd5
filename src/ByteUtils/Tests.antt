-- ===== src/ByteUtils/Tests.antt =====
-- byte_utils.c at a concrete number.
use stm8flash.Common.{◌≡◌, [], ◌∷◌, ◌++◌, some, arith}
use stm8flash.ByteUtils.{format_int, little_endian, big_endian}
use stm8flash.ByteUtils.Format.{format_int-pack_int32}
use stm8flash.ByteUtils.Load.{reload, load_int-format_int}
use stm8flash.Stlink.{pack_int32, pack_int32_le}

format_int-pack_int32_example :
    (format_int (0 ∷ 0 ∷ 0 ∷ 0 ∷ 9 ∷ []) 0x1234 4 big_endian ≡ some (pack_int32 0x1234 ++ (9 ∷ [])))
    × (format_int (0 ∷ 0 ∷ 0 ∷ 0 ∷ 9 ∷ []) 0x1234 4 little_endian
        ≡ some (pack_int32_le 0x1234 ++ (9 ∷ [])))
format_int-pack_int32_example = format_int-pack_int32 0 0 0 0 0x1234 (9 ∷ [])

load_int-format_int_example :
    (reload (0 ∷ 1 ∷ 2 ∷ 3 ∷ []) 0x1234 2 little_endian ≡ some 0x1234)
    × (reload (0 ∷ 1 ∷ 2 ∷ 3 ∷ []) 0x1234 2 big_endian ≡ some 0x1234)
load_int-format_int_example = load_int-format_int 0 1 2 3 0x1234 2 (omega arith) (omega arith)
