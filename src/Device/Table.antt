-- ===== src/Device/Table.antt =====
-- stm8.c: the table of the supported devices, without the entry that ends it.
pub mod Entry
mod First
mod Second
mod Third
pub mod Facts
use stm8flash.Common.{List, ◌++◌}
use stm8flash.Device.{Device}
use First.{part_one, part_two}
use Second.{part_three, part_four}
use Third.{part_five, part_six, part_seven}

unfoldable pub stm8_devices : List Device
unfolding part_one part_two part_three part_four part_five part_six part_seven
stm8_devices =
    part_one ++ (part_two ++ (part_three ++ (part_four ++ (part_five ++ (part_six ++ part_seven)))))
