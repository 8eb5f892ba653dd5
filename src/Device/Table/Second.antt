-- ===== src/Device/Table/Second.antt =====
-- stm8.c: a part of the table of devices, in its order. The columns are those of `entry`.
use stm8flash.Common.{List, [], ◌∷◌}
use stm8flash.Device.{Device, rop_unknown, rop_stm8s, rop_stm8l, regs_stm8l}
use stm8flash.Device.Table.Entry.{entry}

unfoldable pub part_three : List Device
unfolding entry
part_three =
    entry "stm8al3l4?" 0x0000 2048 0x1000 1024 0x8000 16384 128 0 rop_unknown regs_stm8l
    ∷ entry "stm8al3l6?" 0x0000 2048 0x1000 1024 0x8000 32768 128 0 rop_unknown regs_stm8l
    ∷ entry "stm8al3l8?" 0x0000 4096 0x1000 2048 0x8000 65536 128 13 rop_unknown regs_stm8l
    ∷ entry "stm8al3le8?" 0x0000 4096 0x1000 2048 0x8000 65536 128 13 rop_unknown regs_stm8l
    ∷ entry "stm8l001j3" 0x0000 1536 0 0 0x8000 8192 64 9 rop_stm8s regs_stm8l
    ∷ entry "stm8l050j3" 0x0000 1024 0x1000 256 0x8000 8192 64 13 rop_stm8l regs_stm8l
    ∷ entry "stm8l051f3" 0x0000 1024 0x1000 256 0x8000 8192 64 0 rop_unknown regs_stm8l
    ∷ entry "stm8l052c6" 0x0000 2048 0x1000 256 0x8000 32768 128 13 rop_stm8l regs_stm8l
    ∷ entry "stm8l052r8" 0x0000 4096 0x1000 256 0x8000 65536 64 0 rop_unknown regs_stm8l
    ∷ entry "stm8l101f1" 0x0000 0x05ff 0x9fff 0 0x8000 2048 64 9 rop_stm8s regs_stm8l
    ∷ []

unfoldable pub part_four : List Device
unfolding entry
part_four =
    entry "stm8l101?2" 0x0000 0x05ff 0x9fff 0 0x8000 4096 64 9 rop_stm8s regs_stm8l
    ∷ entry "stm8l101?3" 0x0000 0x05ff 0x9fff 0 0x8000 8192 64 9 rop_stm8s regs_stm8l
    ∷ entry "stm8l151?2" 0x0000 1024 0x1000 256 0x8000 4096 64 0 rop_unknown regs_stm8l
    ∷ entry "stm8l151?3" 0x0000 1024 0x1000 256 0x8000 8192 64 0 rop_unknown regs_stm8l
    ∷ entry "stm8l151?4" 0x0000 2048 0x1000 1024 0x8000 16384 128 13 rop_stm8l regs_stm8l
    ∷ entry "stm8l151?6" 0x0000 2048 0x1000 1024 0x8000 32768 128 13 rop_stm8l regs_stm8l
    ∷ entry "stm8l151?8" 0x0000 4096 0x1000 2048 0x8000 65536 128 13 rop_stm8l regs_stm8l
    ∷ entry "stm8l152?4" 0x0000 2048 0x1000 1024 0x8000 16384 128 13 rop_stm8l regs_stm8l
    ∷ entry "stm8l152?6" 0x0000 2048 0x1000 1024 0x8000 32768 128 13 rop_stm8l regs_stm8l
    ∷ entry "stm8l152?8" 0x0000 4096 0x1000 2048 0x8000 65536 128 0 rop_unknown regs_stm8l
    ∷ []
