-- ===== src/Device/Table/First.antt =====
-- stm8.c: a part of the table of devices, in its order. The columns are those of `entry`.
use stm8flash.Common.{List, [], ◌∷◌}
use stm8flash.Device.{Device, rop_unknown, rop_stm8s, regs_stm8s, regs_stm8l}
use stm8flash.Device.Table.Entry.{entry}

unfoldable pub part_one : List Device
unfolding entry
part_one =
    entry "stlux385" 0x0000 2048 0x4000 1024 0x8000 32768 128 128 rop_stm8s regs_stm8s
    ∷ entry "stlux???a" 0x0000 2048 0x4000 1024 0x8000 32768 128 128 rop_stm8s regs_stm8s
    ∷ entry "stm8af526?" 0x0000 6144 0x4000 1024 0x8000 32768 128 0 rop_unknown regs_stm8s
    ∷ entry "stm8af528?" 0x0000 6144 0x4000 2048 0x8000 65536 128 0 rop_unknown regs_stm8s
    ∷ entry "stm8af52a?" 0x0000 6144 0x4000 2048 0x8000 131072 128 128 rop_stm8s regs_stm8s
    ∷ entry "stm8af6213" 0x0000 1024 0x4000 640 0x8000 4096 64 0 rop_unknown regs_stm8s
    ∷ entry "stm8af6223" 0x0000 1024 0x4000 640 0x8000 8192 64 0 rop_unknown regs_stm8s
    ∷ entry "stm8af6223a" 0x0000 1024 0x4000 640 0x8000 8192 64 0 rop_unknown regs_stm8s
    ∷ entry "stm8af6226" 0x0000 2048 0x4000 640 0x8000 8192 64 0 rop_unknown regs_stm8s
    ∷ entry "stm8af624?" 0x0000 2048 0x4000 512 0x8000 16384 128 0 rop_unknown regs_stm8s
    ∷ []

unfoldable pub part_two : List Device
unfolding entry
part_two =
    entry "stm8af6266" 0x0000 2048 0x4000 1024 0x8000 32768 128 0 rop_unknown regs_stm8s
    ∷ entry "stm8af6268" 0x0000 2048 0x4000 1024 0x8000 32768 128 0 rop_unknown regs_stm8s
    ∷ entry "stm8af6269" 0x0000 6144 0x4000 1024 0x8000 32768 128 0 rop_unknown regs_stm8s
    ∷ entry "stm8af628?" 0x0000 6144 0x4000 2048 0x8000 65536 128 0 rop_unknown regs_stm8s
    ∷ entry "stm8af62a?" 0x0000 6144 0x4000 2048 0x8000 131072 128 128 rop_stm8s regs_stm8s
    ∷ entry "stm8al313?" 0x0000 2048 0x1000 1024 0x8000 8192 128 0 rop_unknown regs_stm8l
    ∷ entry "stm8al314?" 0x0000 2048 0x1000 1024 0x8000 16384 128 0 rop_unknown regs_stm8l
    ∷ entry "stm8al316?" 0x0000 2048 0x1000 1024 0x8000 32768 128 0 rop_unknown regs_stm8l
    ∷ entry "stm8al318?" 0x0000 4096 0x1000 2048 0x8000 65536 128 13 rop_unknown regs_stm8l
    ∷ entry "stm8al31e8?" 0x0000 4096 0x1000 2048 0x8000 65536 128 13 rop_unknown regs_stm8l
    ∷ []
