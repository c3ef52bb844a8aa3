-- ===== src/Display/I2c.antt =====
-- src/drivers/framebuffer/imx8mq/i2c_imx.c: the bus driver that hands Linux' messages to the
-- Genode I2C session.
pub mod Transfer
mod Tests
use Prim.Native.Nat.{bit_and}
use genode_imx.Base.{
  ℕ, ℤ, pos, negsuc, Bool, not, ◌==◌, ltb, ◌||◌, if◌then◌else◌, is_neg, Option, none, some, Ptr,
  null, Name, List, [], ◌∷◌, ◌++◌, take, get_or, set, ◌-◌,
}

-- `struct i2c_msg`
pub record Msg : Type 0 where
  pub flags : ℕ
  pub len : ℕ
  pub buf : List ℕ

-- `I2C_M_RD`
abbrev pub i2c_m_rd : ℕ
i2c_m_rd = 1

abbrev pub is_read : Msg → Bool
is_read m = not (bit_and m.flags i2c_m_rd == 0)

-- `lx_emul_i2c_write_bytes` and `lx_emul_i2c_read_byte` of i2c.cc over a bus of its own.
pub record Bus (W : Type 0) : Type 0 where
  pub write_bytes : List ℕ → W → W
  pub read_byte : ℕ → W → ℕ × W

-- What a transfer leaves: its result, the messages, the bus, and whether it printed an error.
pub record Outcome (W : Type 0) : Type 0 where
  pub result : ℕ
  pub msgs : List Msg
  pub bus : W
  pub complained : Bool

module _ {W : Type 0} where
  abbrev pub refuse : List Msg → W → Outcome W
  refuse msgs w = record { result = 0; msgs = msgs; bus = w; complained = Bool.true }

  abbrev pub done : ℕ → List Msg → W → Outcome W
  done n msgs w = record { result = n; msgs = msgs; bus = w; complained = Bool.false }

  -- `i2c_imx_xfer`, by the number of messages
  pub i2c_imx_xfer : Bus W → List Msg → W → Outcome W
  i2c_imx_xfer bus [] w = done 0 [] w
  i2c_imx_xfer bus (m ∷ []) w =
      if ltb m.len 2 || is_read m
      then refuse (m ∷ []) w
      else done 1 (m ∷ []) (bus.write_bytes (take m.len m.buf) w)
  i2c_imx_xfer bus (m ∷ n ∷ []) w =
      if not (m.len == 1) || (not (n.len == 1) || not (is_read n))
      then refuse (m ∷ n ∷ []) w
      else let (byte, w') = bus.read_byte (get_or m.buf 0 0) w in
        done 2 (m ∷ record n { buf = set n.buf 0 byte } ∷ []) w'
  i2c_imx_xfer bus (m ∷ n ∷ o ∷ ms) w = refuse (m ∷ n ∷ o ∷ ms) w

-- `struct i2c_adapter`, and what `i2c_imx_probe` sets beside it.
pub record Adapter : Type 0 where
  pub name : Name
  pub nr : ℕ
  pub parent : Ptr
  pub of_node : Ptr
  pub drvdata : Ptr

abbrev pub enomem : ℤ
enomem = negsuc 11

-- `i2c_imx_probe` for a platform device with its address, name, number and device-tree node, given
-- what its allocation returns, the size of the adapter's name, and what adding the adapter returns.
pub i2c_imx_probe :
    (alloc pdev : Ptr) (name : Name) (id : ℕ) (of_node : Ptr) (name_size : ℕ) (added : Adapter → ℤ)
    → ℤ × Option Adapter
i2c_imx_probe alloc pdev name id of_node name_size added =
    if alloc == null
    then (enomem, none)
    else let a : Adapter = record {
      name = take (name_size - 1) name;
      nr = id;
      parent = pdev;
      of_node = of_node;
      drvdata = alloc;
    } in
      if is_neg (added a) then (added a, none) else (pos 0, some a)
