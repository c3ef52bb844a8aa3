-- ===== src/Bootstrap/Tests.antt =====
-- A PLL that acknowledges at the third read.
use genode_imx.Base.{ℕ, ◌≡◌, Bool, true, false, leb, some, List, refl}
use genode_imx.Bootstrap.Setup.{Access, imx8q_evk_frequency, mnt_reform2_frequency}
use genode_imx.Bootstrap.Frequency.{
  Seen, all_allowed, see_all, imx8q_evk-mnt_reform2, imx8q_evk_frequency_lem,
}

abbrev ack : ℕ → Bool
ack n = leb 2 n

imx8q_evk-mnt_reform2_example :
    imx8q_evk_frequency 5 ack 0x81c ≡ mnt_reform2_frequency 5 ack 0x11000000 0x81c
imx8q_evk-mnt_reform2_example = imx8q_evk-mnt_reform2 5 ack 0x11000000 0x81c refl

abbrev running : Seen
running = record { source = 1; acknowledged = false }

imx8q_evk_frequency_lem_example :
    (accesses : List Access) × (imx8q_evk_frequency 3 ack 0x81c ≡ some accesses)
    × (all_allowed running accesses ≡ true)
    × (see_all running accesses ≡ record { source = 1; acknowledged = true })
imx8q_evk_frequency_lem_example = imx8q_evk_frequency_lem 2 ack 0x81c running refl
