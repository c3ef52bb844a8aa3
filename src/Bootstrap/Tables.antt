-- ===== src/Bootstrap/Tables.antt =====
-- The tables of src/bootstrap/board/imx8q_evk/platform.cc, mnt_reform2/platform.cc and
-- imx8mp_iot_gate/platform.cc: addresses of the pads' registers and what is written to them.
use genode_imx.Base.{ℕ, List, [], ◌∷◌}

-- `iomux_values` of imx8q_evk
unfoldable pub imx8q_evk_values : List (ℕ × ℕ)
imx8q_evk_values =
    (0x30330064, 0x6)
    ∷ (0x30330140, 0x0)
    ∷ (0x30330144, 0x0)
    ∷ (0x30330148, 0x0)
    ∷ (0x3033014c, 0x0)
    ∷ (0x30330150, 0x0)
    ∷ (0x30330154, 0x0)
    ∷ (0x30330158, 0x0)
    ∷ (0x30330180, 0x2)
    ∷ (0x30330184, 0x0)
    ∷ (0x30330188, 0x0)
    ∷ (0x3033018c, 0x0)
    ∷ (0x30330190, 0x0)
    ∷ (0x30330194, 0x0)
    ∷ (0x30330198, 0x0)
    ∷ (0x3033019c, 0x0)
    ∷ (0x303301a0, 0x0)
    ∷ (0x303301a4, 0x0)
    ∷ (0x303301a8, 0x0)
    ∷ (0x303301ac, 0x0)
    ∷ (0x303301bc, 0x0)
    ∷ (0x303301c0, 0x0)
    ∷ (0x303301c4, 0x0)
    ∷ (0x303301c8, 0x0)
    ∷ (0x303301e8, 0x0)
    ∷ (0x303301ec, 0x0)
    ∷ (0x303301fc, 0x1)
    ∷ (0x30330200, 0x1)
    ∷ (0x3033021c, 0x10)
    ∷ (0x30330220, 0x10)
    ∷ (0x30330224, 0x10)
    ∷ (0x30330228, 0x10)
    ∷ (0x3033022c, 0x12)
    ∷ (0x30330230, 0x12)
    ∷ (0x30330244, 0x0)
    ∷ (0x30330248, 0x0)
    ∷ (0x3033029c, 0x19)
    ∷ (0x303302a4, 0x19)
    ∷ (0x303302a8, 0x19)
    ∷ (0x303302b0, 0xd6)
    ∷ (0x303302c0, 0x4f)
    ∷ (0x303302c4, 0x16)
    ∷ (0x303302cc, 0x59)
    ∷ (0x30330308, 0x9f)
    ∷ (0x3033030c, 0xdf)
    ∷ (0x30330310, 0xdf)
    ∷ (0x30330314, 0xdf)
    ∷ (0x30330318, 0xdf)
    ∷ (0x3033031c, 0xdf)
    ∷ (0x30330320, 0xdf)
    ∷ (0x30330324, 0xdf)
    ∷ (0x30330328, 0xdf)
    ∷ (0x3033032c, 0xdf)
    ∷ (0x30330334, 0x9f)
    ∷ (0x3033033c, 0x83)
    ∷ (0x30330340, 0xc3)
    ∷ (0x30330344, 0xc3)
    ∷ (0x30330348, 0xc3)
    ∷ (0x3033034c, 0xc3)
    ∷ (0x30330350, 0xc3)
    ∷ (0x30330368, 0x59)
    ∷ (0x30330370, 0x19)
    ∷ (0x3033039c, 0x19)
    ∷ (0x303303a0, 0x19)
    ∷ (0x303303a4, 0x19)
    ∷ (0x303303a8, 0xd6)
    ∷ (0x303303ac, 0xd6)
    ∷ (0x303303b0, 0xd6)
    ∷ (0x303303b4, 0xd6)
    ∷ (0x303303b8, 0xd6)
    ∷ (0x303303bc, 0xd6)
    ∷ (0x303303c0, 0xd6)
    ∷ (0x303303e8, 0xd6)
    ∷ (0x303303ec, 0xd6)
    ∷ (0x303303f0, 0xd6)
    ∷ (0x303303f4, 0xd6)
    ∷ (0x303303f8, 0xd6)
    ∷ (0x303303fc, 0xd6)
    ∷ (0x30330400, 0xd6)
    ∷ (0x30330404, 0xd6)
    ∷ (0x30330408, 0xd6)
    ∷ (0x3033040c, 0xd6)
    ∷ (0x30330410, 0xd6)
    ∷ (0x30330414, 0xd6)
    ∷ (0x30330424, 0xd6)
    ∷ (0x30330428, 0xd6)
    ∷ (0x3033042c, 0xd6)
    ∷ (0x30330430, 0xd6)
    ∷ (0x30330450, 0xd6)
    ∷ (0x30330454, 0xd6)
    ∷ (0x30330460, 0x19)
    ∷ (0x30330464, 0x49)
    ∷ (0x30330468, 0x49)
    ∷ (0x3033046c, 0x16)
    ∷ (0x30330484, 0x67)
    ∷ (0x30330488, 0x67)
    ∷ (0x3033048c, 0x67)
    ∷ (0x30330490, 0x67)
    ∷ (0x30330494, 0x76)
    ∷ (0x30330498, 0x76)
    ∷ (0x3033049c, 0x49)
    ∷ (0x303304a0, 0x49)
    ∷ (0x303304ac, 0x49)
    ∷ (0x303304b0, 0x49)
    ∷ (0x303304c8, 0x1)
    ∷ (0x303304cc, 0x4)
    ∷ (0x30330500, 0x1)
    ∷ (0x30330504, 0x2)
    ∷ (0x30340038, 0x49409600)
    ∷ (0x30340040, 0x49409200)
    ∷ (0x30340034, 0x4)
    ∷ []

-- `iomuxc_values` of mnt_reform2
unfoldable pub mnt_reform2_values : List (ℕ × ℕ)
mnt_reform2_values =
    (0x3033005c, 0x0)
    ∷ (0x303301b0, 0x0)
    ∷ (0x303301b4, 0x0)
    ∷ (0x303301b8, 0x0)
    ∷ (0x303301bc, 0x0)
    ∷ (0x303301c0, 0x0)
    ∷ (0x303301c4, 0x0)
    ∷ (0x303301c8, 0x0)
    ∷ (0x303301e4, 0x1)
    ∷ (0x303301e8, 0x1)
    ∷ (0x303301ec, 0x1)
    ∷ (0x303301fc, 0x1)
    ∷ (0x30330200, 0x1)
    ∷ (0x30330224, 0x10)
    ∷ (0x30330228, 0x10)
    ∷ (0x3033022c, 0x10)
    ∷ (0x30330230, 0x10)
    ∷ (0x3033023c, 0x0)
    ∷ (0x30330240, 0x0)
    ∷ (0x30330244, 0x0)
    ∷ (0x30330248, 0x0)
    ∷ (0x303302b4, 0x19)
    ∷ (0x303302bc, 0x59)
    ∷ (0x303302c8, 0x56)
    ∷ (0x30330308, 0x9f)
    ∷ (0x3033030c, 0xdf)
    ∷ (0x30330310, 0xdf)
    ∷ (0x30330314, 0xdf)
    ∷ (0x30330318, 0xdf)
    ∷ (0x3033031c, 0xdf)
    ∷ (0x30330320, 0xdf)
    ∷ (0x30330324, 0xdf)
    ∷ (0x30330328, 0xdf)
    ∷ (0x3033032c, 0xdf)
    ∷ (0x303303ac, 0x19)
    ∷ (0x303303b8, 0x16)
    ∷ (0x30330418, 0xd6)
    ∷ (0x3033041c, 0xd6)
    ∷ (0x30330420, 0xd6)
    ∷ (0x30330424, 0xd6)
    ∷ (0x30330428, 0xd6)
    ∷ (0x3033042c, 0xd6)
    ∷ (0x30330430, 0xd6)
    ∷ (0x30330464, 0x45)
    ∷ (0x30330468, 0x45)
    ∷ (0x3033047c, 0x7f)
    ∷ (0x30330480, 0x7f)
    ∷ (0x3033048c, 0x7f)
    ∷ (0x30330490, 0x7f)
    ∷ (0x30330494, 0x7f)
    ∷ (0x30330498, 0x7f)
    ∷ (0x3033049c, 0x45)
    ∷ (0x303304a0, 0x45)
    ∷ (0x303304a4, 0x45)
    ∷ (0x303304a8, 0x45)
    ∷ (0x303304ac, 0x45)
    ∷ (0x303304b0, 0x45)
    ∷ (0x30330500, 0x1)
    ∷ (0x30330504, 0x2)
    ∷ (0x30340034, 0x4)
    ∷ (0x30340040, 0x49409200)
    ∷ (0x30340060, 0x180000)
    ∷ (0x30340064, 0x6400a20)
    ∷ (0x30340068, 0xa)
    ∷ []

-- `initial_values` of mnt_reform2
unfoldable pub mnt_reform2_initial_values : List (ℕ × ℕ)
mnt_reform2_initial_values =
    (0x30340038, 0x49409400)
    ∷ (0x30340040, 0x49409600)
    ∷ (0x303301fc, 0x00000005)
    ∷ (0x30330200, 0x00000005)
    ∷ (0x30330308, 0x00000083)
    ∷ (0x3033030c, 0x000000c3)
    ∷ (0x30330310, 0x000000c3)
    ∷ (0x30330314, 0x000000c3)
    ∷ (0x30330318, 0x000000c3)
    ∷ (0x3033031c, 0x000000c3)
    ∷ (0x30330320, 0x000000c3)
    ∷ (0x30330324, 0x000000c3)
    ∷ (0x30330328, 0x000000c3)
    ∷ (0x3033032c, 0x000000c3)
    ∷ (0x30330350, 0x0000000c)
    ∷ (0x30330464, 0x00000016)
    ∷ (0x30330468, 0x00000016)
    ∷ (0x30330500, 0x00000000)
    ∷ []

-- `iomux_values` of imx8mp_iot_gate
unfoldable pub imx8mp_iot_gate_values : List (ℕ × ℕ)
imx8mp_iot_gate_values =
    (0x30330054, 0x0)
    ∷ (0x30330058, 0x0)
    ∷ (0x3033057c, 0x0)
    ∷ (0x3033005c, 0x0)
    ∷ (0x30330060, 0x0)
    ∷ (0x30330064, 0x0)
    ∷ (0x30330068, 0x0)
    ∷ (0x3033006c, 0x0)
    ∷ (0x30330070, 0x0)
    ∷ (0x30330074, 0x0)
    ∷ (0x30330078, 0x0)
    ∷ (0x3033007c, 0x0)
    ∷ (0x30330080, 0x0)
    ∷ (0x30330084, 0x0)
    ∷ (0x30330088, 0x0)
    ∷ (0x303302b4, 0x2)
    ∷ (0x303302b8, 0x2)
    ∷ (0x303302bc, 0x16)
    ∷ (0x303302c0, 0x16)
    ∷ (0x303302c4, 0x16)
    ∷ (0x303302c8, 0x16)
    ∷ (0x303302cc, 0x16)
    ∷ (0x303302d0, 0x16)
    ∷ (0x303302d4, 0x90)
    ∷ (0x303302d8, 0x90)
    ∷ (0x303302dc, 0x90)
    ∷ (0x303302e0, 0x90)
    ∷ (0x303302e4, 0x90)
    ∷ (0x303302e8, 0x90)
    ∷ (0x303301a8, 0x5)
    ∷ (0x30330408, 0x10)
    ∷ (0x30330024, 0x0)
    ∷ (0x30330284, 0xc1)
    ∷ (0x30330124, 0x2)
    ∷ (0x30330128, 0x2)
    ∷ (0x30330108, 0x2)
    ∷ (0x3033010c, 0x2)
    ∷ (0x30330110, 0x2)
    ∷ (0x30330114, 0x2)
    ∷ (0x3033011c, 0x2)
    ∷ (0x303300ec, 0x2)
    ∷ (0x303300f0, 0x2)
    ∷ (0x303300f4, 0x2)
    ∷ (0x303300e8, 0x2)
    ∷ (0x30330384, 0x196)
    ∷ (0x30330388, 0x1d6)
    ∷ (0x30330368, 0x1d6)
    ∷ (0x3033036c, 0x1d6)
    ∷ (0x30330370, 0x1d6)
    ∷ (0x30330374, 0x1d6)
    ∷ (0x3033037c, 0x1d6)
    ∷ (0x3033034c, 0x1d6)
    ∷ (0x30330350, 0x1d6)
    ∷ (0x30330354, 0x1d6)
    ∷ (0x30330348, 0x196)
    ∷ []
