-- ===== src/Platform/Imx53.antt =====
-- src/drivers/platform/imx53/ccm.h and src.h: the clocks and the reset of the i.MX53.
mod Gates
mod Tests
use Prim.Native.Nat.{bit_and}
use genode_imx.Base.{ℕ, ◌%◌, ◌^◌}

-- `Ccgr1` as a word, and the fields of the other registers
pub record Ccm : Type 0 where
  pub ccgr1 : ℕ
  pub ccgr2_fec : ℕ
  pub ccgr5_ipu : ℕ
  pub ipu_hs_mask : ℕ
  pub bypass_ipu_hs : ℕ
  pub cscmr2 : ℕ
  pub cdcdr : ℕ
  pub ipu_rst : ℕ

-- `Ipu_clock::_enable` and `_disable`
unfoldable pub ipu_enable : Ccm → Ccm
ipu_enable c = record c {
  ccgr5_ipu = 3;
  ipu_hs_mask = 0;
  bypass_ipu_hs = 0;
  cscmr2 = 0xa2b32f0b;
  cdcdr = 0x14370092;
}

unfoldable pub ipu_disable : Ccm → Ccm
ipu_disable c = record c { ccgr5_ipu = 0; ipu_hs_mask = 1; bypass_ipu_hs = 1 }

-- `I2c_clock::_enable`: `mask` is what `Bitfield::mask` gives for the field of the clock, and
-- `v & 3` is the rest of a division by 4.
unfoldable pub i2c_enable : (mask : ℕ) → Ccm → Ccm
i2c_enable mask c = record c { ccgr1 = bit_and c.ccgr1 mask % 2 ^ 2 }

-- The positions of `Ccgr1::I2c_1`, `I2c_2` and `I2c_3`
abbrev pub i2c_1 : ℕ
i2c_1 = 18

abbrev pub i2c_2 : ℕ
i2c_2 = 20

abbrev pub i2c_3 : ℕ
i2c_3 = 22

-- `Fec_clock::_enable` and `_disable`
unfoldable pub fec_enable : Ccm → Ccm
fec_enable c = record c { ccgr2_fec = 3 }

unfoldable pub fec_disable : Ccm → Ccm
fec_disable c = record c { ccgr2_fec = 0 }

-- `Ipu_reset::_deassert`
unfoldable pub ipu_deassert : Ccm → Ccm
ipu_deassert c = record c { ipu_rst = 1 }
