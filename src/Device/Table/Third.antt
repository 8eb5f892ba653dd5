-- ===== src/Device/Table/Third.antt =====
-- stm8.c: a part of the table of devices, in its order. The columns are those of `entry`.
use stm8flash.Common.{List, [], ◌∷◌}
use stm8flash.Device.{Device, rop_unknown, rop_stm8s, regs_stm8s, regs_stm8l}
use stm8flash.Device.Table.Entry.{entry}

unfoldable pub part_five : List Device
unfolding entry
part_five =
    entry "stm8l162?8" 0x0000 2048 0x1000 2048 0x8000 65536 128 0 rop_unknown regs_stm8l
    ∷ entry "stm8s001j3" 0x0000 1024 0x4000 128 0x8000 8192 64 11 rop_stm8s regs_stm8s
    ∷ entry "stm8s003?3" 0x0000 1024 0x4000 128 0x8000 8192 64 11 rop_stm8s regs_stm8s
    ∷ entry "stm8s005?6" 0x0000 2048 0x4000 128 0x8000 32768 128 15 rop_stm8s regs_stm8s
    ∷ entry "stm8s007c8" 0x0000 6144 0x4000 128 0x8000 65536 128 0 rop_unknown regs_stm8s
    ∷ entry "stm8s103f2" 0x0000 1024 0x4000 640 0x8000 4096 64 11 rop_stm8s regs_stm8s
    ∷ entry "stm8s103?3" 0x0000 1024 0x4000 640 0x8000 8192 64 11 rop_stm8s regs_stm8s
    ∷ entry "stm8s105?4" 0x0000 2048 0x4000 1024 0x8000 16384 128 15 rop_stm8s regs_stm8s
    ∷ entry "stm8s105?6" 0x0000 2048 0x4000 1024 0x8000 32768 128 15 rop_stm8s regs_stm8s
    ∷ entry "stm8s207c8" 0x0000 6144 0x4000 1536 0x8000 65536 128 0 rop_unknown regs_stm8s
    ∷ []

unfoldable pub part_six : List Device
unfolding entry
part_six =
    entry "stm8s207cb" 0x0000 6144 0x4000 2048 0x8000 131072 128 17 rop_stm8s regs_stm8s
    ∷ entry "stm8s207k8" 0x0000 6144 0x4000 1024 0x8000 65536 128 17 rop_stm8s regs_stm8s
    ∷ entry "stm8s207m8" 0x0000 6144 0x4000 2048 0x8000 65536 128 0 rop_unknown regs_stm8s
    ∷ entry "stm8s207mb" 0x0000 6144 0x4000 2048 0x8000 131072 128 0 rop_unknown regs_stm8s
    ∷ entry "stm8s207r8" 0x0000 6144 0x4000 1536 0x8000 65536 128 0 rop_unknown regs_stm8s
    ∷ entry "stm8s207rb" 0x0000 6144 0x4000 2048 0x8000 131072 128 17 rop_stm8s regs_stm8s
    ∷ entry "stm8s207s8" 0x0000 6144 0x4000 1536 0x8000 65536 128 0 rop_unknown regs_stm8s
    ∷ entry "stm8s207sb" 0x0000 6144 0x4000 1536 0x8000 131072 128 0 rop_unknown regs_stm8s
    ∷ entry "stm8s207?6" 0x0000 6144 0x4000 1024 0x8000 32768 128 0 rop_unknown regs_stm8s
    ∷ entry "stm8s208c6" 0x0000 6144 0x4000 2048 0x8000 32768 128 0 rop_unknown regs_stm8s
    ∷ []

unfoldable pub part_seven : List Device
unfolding entry
part_seven =
    entry "stm8s208r6" 0x0000 6144 0x4000 2048 0x8000 32768 128 0 rop_unknown regs_stm8s
    ∷ entry "stm8s208s6" 0x0000 6144 0x4000 1536 0x8000 32768 128 0 rop_unknown regs_stm8s
    ∷ entry "stm8s208?8" 0x0000 6144 0x4000 2048 0x8000 65536 128 0 rop_unknown regs_stm8s
    ∷ entry "stm8s208?b" 0x0000 6144 0x4000 2048 0x8000 131072 128 17 rop_stm8s regs_stm8s
    ∷ entry "stm8s903?3" 0x0000 1024 0x4000 640 0x8000 8192 64 11 rop_stm8s regs_stm8s
    ∷ entry "stm8splnb1" 0x0000 1024 0x4000 640 0x8000 8192 128 0 rop_unknown regs_stm8s
    ∷ entry "stm8tl5??4" 0x0000 4096 0x9fff 0 0x8000 16384 64 0 rop_unknown regs_stm8l
    ∷ entry "stnrg???a" 0x0000 6144 0x4000 1024 0x8000 32768 128 128 rop_stm8s regs_stm8s
    ∷ []
