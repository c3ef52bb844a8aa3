-- ===== src/Platform/Imx53/Gates.antt =====
-- What enabling the I2C clocks of the i.MX53 does to the gates.
use genode_imx.Base.{ℕ, ◌/◌, ◌%◌, ◌^◌, ◌≡◌, refl, arith}
use genode_imx.Platform.Imx53.{Ccm, i2c_enable, i2c_1, i2c_2, i2c_3}

-- The gate of a clock, by its position: 3 lets it run, 0 stops it.
abbrev pub gate : (shift : ℕ) → Ccm → ℕ
gate shift c = c.ccgr1 / 2 ^ shift % 2 ^ 2

-- Enabling any of the I2C clocks stops all three of them, whatever their gates were before and
-- whatever the mask is; no other register changes.
pub i2c_enable-stops :
    (mask : ℕ) (c : Ccm)
    → let d = i2c_enable mask c in
      (gate i2c_1 d ≡ 0)
      × (gate i2c_2 d ≡ 0)
      × (gate i2c_3 d ≡ 0)
      × (d ≡ record c { ccgr1 = d.ccgr1 })
unfolding i2c_enable
i2c_enable-stops mask c = (omega arith, omega arith, omega arith, refl)
