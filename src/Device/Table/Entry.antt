-- ===== src/Device/Table/Entry.antt =====
-- One row of the table of devices.
use Prim.Native.String.{String}
use stm8flash.Common.{ℕ, codes}
use stm8flash.Device.{Device, RopType, Regs}

unfoldable pub entry : String → ℕ → ℕ → ℕ → ℕ → ℕ → ℕ → ℕ → ℕ → RopType → Regs → Device
entry name ram_start ram_size eeprom_start eeprom_size flash_start flash_size block_size option_size
      rop regs =
    record {
      name = codes name;
      ram_start = ram_start;
      ram_size = ram_size;
      eeprom_start = eeprom_start;
      eeprom_size = eeprom_size;
      flash_start = flash_start;
      flash_size = flash_size;
      flash_block_size = block_size;
      option_bytes_size = option_size;
      read_out_protection_mode = rop;
      regs = regs;
    }
