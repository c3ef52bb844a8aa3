-- ===== src/Display/I2c/Tests.antt =====
-- A bus with one device that answers each register with its number doubled.
use genode_imx.Base.{ℕ, ◌*◌, ◌≡◌, refl, List, [], ◌∷◌, ◌++◌}
use genode_imx.Display.I2c.{Msg, Bus, refuse, i2c_imx_xfer}

abbrev bus : Bus (List ℕ)
bus = record { write_bytes = λ bytes w. w ++ bytes; read_byte = λ a w. (2 * a, w) }

abbrev one_byte : Msg
one_byte = record { flags = 0; len = 1; buf = 7 ∷ [] }

-- Two writes of single bytes are refused.
two_writes : i2c_imx_xfer bus (one_byte ∷ one_byte ∷ []) [] ≡ refuse (one_byte ∷ one_byte ∷ []) []
unfolding i2c_imx_xfer
two_writes = refl
