-- ===== src/Display/I2c/Transfer.antt =====
-- Which transfers are made.
use genode_imx.Base.{
  ℕ, ◌≡◌, ◌≤◌, ◌⊎◌, true, false, refl, ap, Bool-cases, List, [], ◌∷◌, get_or, set, arith, inl, inr,
  ltb, ◌==◌, not, ◌||◌, length,
}
use genode_imx.Display.I2c.{Msg, is_read, Bus, refuse, done, i2c_imx_xfer}

-- The two shapes of transfer that the driver makes: one write of at least two bytes, or the write
-- of one byte, a register's number, followed by the read of one byte.
pub data Supported : List Msg → Type 0 where
  write : {m : Msg} → 2 ≤ m.len → is_read m ≡ false → Supported (m ∷ [])
  write_read : {m n : Msg} → m.len ≡ 1 → n.len ≡ 1 → is_read n ≡ true → Supported (m ∷ n ∷ [])

module _ {W : Type 0} (bus : Bus W) where
  -- A supported transfer returns the number of its messages and no error.
  pub i2c_imx_xfer-supported :
      (msgs : List Msg) (w : W)
      → Supported msgs
      → let out = i2c_imx_xfer bus msgs w in (out.result ≡ length msgs) × (out.complained ≡ false)
  unfolding i2c_imx_xfer
  i2c_imx_xfer-supported msgs w (write long out) = ground arith
  i2c_imx_xfer-supported msgs w (write_read one one' back) = ground arith

  -- A transfer that is not empty either has one of the two shapes, or is refused: the result is 0
  -- with an error message, and neither the bus nor a message is touched.
  pub i2c_imx_xfer-cases :
      (m : Msg) (ms : List Msg) (w : W)
      → Supported (m ∷ ms) ⊎ (i2c_imx_xfer bus (m ∷ ms) w ≡ refuse (m ∷ ms) w)
  unfolding i2c_imx_xfer
  i2c_imx_xfer-cases m [] w = elim (Bool-cases (ltb m.len 2 || is_read m)) [
    | inl bad ↦ inr (rw bad)
    | inr good ↦ inl (write (ground arith) (ground arith))
  ]
  i2c_imx_xfer-cases m (n ∷ []) w =
      elim (Bool-cases (not (m.len == 1) || (not (n.len == 1) || not (is_read n)))) [
        | inl bad ↦ inr (rw bad)
        | inr good ↦ inl (write_read (ground arith) (ground arith) (ground arith))
      ]
  i2c_imx_xfer-cases m (n ∷ o ∷ ms) w = inr refl

  -- The byte that a register holds is what the read's buffer holds afterwards.
  pub i2c_imx_xfer-reads :
      (m n : Msg) (rest : List ℕ) (old : ℕ) (w : W)
      → Supported (m ∷ n ∷ [])
      → n.buf ≡ old ∷ rest
      → let (byte, w') = bus.read_byte (get_or m.buf 0 0) w in
        i2c_imx_xfer bus (m ∷ n ∷ []) w ≡ done 2 (m ∷ record n { buf = byte ∷ rest } ∷ []) w'
  unfolding i2c_imx_xfer
  i2c_imx_xfer-reads m n rest old w (write_read one one' back) e =
      let fits : set n.buf 0 (bus.read_byte (get_or m.buf 0 0) w).0
          ≡ (bus.read_byte (get_or m.buf 0 0) w).0 ∷ rest =
        ap (λ l. set l 0 (bus.read_byte (get_or m.buf 0 0) w).0) e in
      rw (one, one', back, fits)
