-- ===== src/Platform/Imx53/Tests.antt =====
-- All three I2C clocks run before.
use genode_imx.Base.{◌*◌, ◌^◌, ◌≡◌}
use genode_imx.Platform.Imx53.{Ccm, i2c_enable, i2c_1, i2c_2, i2c_3}
use genode_imx.Platform.Imx53.Gates.{gate, i2c_enable-stops}

abbrev running : Ccm
running = record {
  ccgr1 = 63 * 2 ^ 18;
  ccgr2_fec = 3;
  ccgr5_ipu = 0;
  ipu_hs_mask = 1;
  bypass_ipu_hs = 1;
  cscmr2 = 0;
  cdcdr = 0;
  ipu_rst = 0;
}

-- With the mask of the second clock.
i2c_enable-stops_example :
    let d = i2c_enable (3 * 2 ^ 20) running in
    (gate i2c_1 d ≡ 0)
    × (gate i2c_2 d ≡ 0)
    × (gate i2c_3 d ≡ 0)
    × (d ≡ record running { ccgr1 = d.ccgr1 })
i2c_enable-stops_example = i2c_enable-stops (3 * 2 ^ 20) running
