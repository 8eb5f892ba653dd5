-- ===== src/Device.antt =====
-- stm8.h: the description of a device. The table of stm8.c is `Device.Table`, and the search for a
-- part by its name, of main.c, is `Device.Part`.
pub mod Table
pub mod Part
mod Tests
use stm8flash.Common.{ℕ, List}

-- The addresses of the registers that the programmers write to.
pub record Regs : Type 0 where
  pub clk_ckdivr : ℕ
  pub flash_pukr : ℕ
  pub flash_dukr : ℕ
  pub flash_iapsr : ℕ
  pub flash_cr2 : ℕ
  pub flash_ncr2 : ℕ
  pub flash_dm_csr2 : ℕ

-- How the read-out protection is taken off.
pub data RopType : Type 0 where
  rop_unknown rop_stm8s rop_stm8l : RopType

pub record Device : Type 0 where
  pub name : List ℕ
  pub ram_start : ℕ
  pub ram_size : ℕ
  pub eeprom_start : ℕ
  pub eeprom_size : ℕ
  pub flash_start : ℕ
  pub flash_size : ℕ
  pub flash_block_size : ℕ
  pub option_bytes_size : ℕ
  pub read_out_protection_mode : RopType
  pub regs : Regs

unfoldable pub regs_stm8s : Regs
regs_stm8s = record {
  clk_ckdivr = 0x50c6;
  flash_pukr = 0x5062;
  flash_dukr = 0x5064;
  flash_iapsr = 0x505f;
  flash_cr2 = 0x505b;
  flash_ncr2 = 0x505c;
  flash_dm_csr2 = 0x7f99;
}

-- FLASH_NCR2 is not present on stm8l.
unfoldable pub regs_stm8l : Regs
regs_stm8l = record {
  clk_ckdivr = 0x50c0;
  flash_pukr = 0x5052;
  flash_dukr = 0x5053;
  flash_iapsr = 0x5054;
  flash_cr2 = 0x5051;
  flash_ncr2 = 0;
  flash_dm_csr2 = 0x7f99;
}
