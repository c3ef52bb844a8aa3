-- ===== src/Bootstrap/Setup.antt =====
-- The constructors of src/bootstrap/board/imx8q_evk/platform.cc, mnt_reform2/platform.cc and
-- imx8mp_iot_gate/platform.cc: the tables are written, and the frequency of the CPU is raised. A
-- register is a word of 32 bits, and reads as it was written but for the acknowledgement of the PLL.
use genode_imx.Base.{
  ℕ, ◌+◌, ◌-◌, ◌*◌, ◌/◌, ◌%◌, ◌^◌, Bool, ◌==◌, if◌then◌else◌, Option, none, some, List, [], ◌∷◌,
  ◌++◌, update,
}
use genode_imx.Base.Poll.{poll}
use genode_imx.Bootstrap.Tables.{
  imx8q_evk_values, mnt_reform2_values, mnt_reform2_initial_values, imx8mp_iot_gate_values,
}

-- The registers, by their addresses.
abbrev pub Memory : Type 0
Memory = ℕ → ℕ

-- The loop over a table.
unfoldable pub write_table : List (ℕ × ℕ) → Memory → Memory
write_table [] m = m
write_table ((address, value) ∷ rest) m = write_table rest (update m address value)

-- The registers of the first GPIO controller that imx8q_evk writes for its voltage regulator
unfoldable pub regulator_values : List (ℕ × ℕ)
regulator_values =
    (0x3020000c, 0)
    ∷ (0x30200010, 0)
    ∷ (0x30200014, 0x1000)
    ∷ (0x30200018, 0xffffffff)
    ∷ (0x30200004, 0x2328)
    ∷ (0x30200000, 0x9f40)
    ∷ []

-- The pads of the three boards.
unfoldable pub imx8q_evk_pads : Memory → Memory
imx8q_evk_pads m = write_table regulator_values (write_table imx8q_evk_values m)

unfoldable pub mnt_reform2_pads : Memory → Memory
mnt_reform2_pads m = write_table mnt_reform2_initial_values (write_table mnt_reform2_values m)

unfoldable pub imx8mp_iot_gate_pads : Memory → Memory
imx8mp_iot_gate_pads m = write_table imx8mp_iot_gate_values m

-- The accesses that raise the frequency: the writes, and the reads of the PLL's acknowledgement. What
-- a write to a bit field reads before is an argument, and no access of its own.
pub data Access : Type 0 where
  write_target_root_0 : ℕ → Access
  write_pll_arm_0 : ℕ → Access
  write_pll_arm_1 : ℕ → Access
  read_newdiv_ack : Bool → Access

-- `v & 0xffffffe0`, and `v | (1 << n)` and `v ^ (1 << n)`
abbrev pub clear_low_bits : ℕ → ℕ
clear_low_bits v = v / 2 ^ 5 * 2 ^ 5

abbrev pub has_bit : (n v : ℕ) → Bool
has_bit n v = v / 2 ^ n % 2 == 1

abbrev pub set_bit : (n v : ℕ) → ℕ
set_bit n v = if has_bit n v then v else v + 2 ^ n

abbrev pub toggle_bit : (n v : ℕ) → ℕ
toggle_bit n v = if has_bit n v then v - 2 ^ n else v + 2 ^ n

-- Writing a bit field: the register is read, and written with the field replaced.
abbrev pub write_field : (shift width value : ℕ) → ℕ → ℕ
write_field shift width value v =
    v - v / 2 ^ shift % 2 ^ width * 2 ^ shift + value % 2 ^ width * 2 ^ shift

-- The loop that waits for the acknowledgement: `none` says that it is missing at the last of
-- `fuel` reads.
unfoldable pub wait_ack : (fuel : ℕ) → (ack : ℕ → Bool) → Option (List Access)
wait_ack fuel ack = poll read_newdiv_ack ack fuel 0

-- The constructor of imx8q_evk, from the value of `Pll_arm_0`.
unfoldable pub imx8q_evk_frequency :
    (fuel : ℕ) (ack : ℕ → Bool) (pll_arm_0 : ℕ) → Option (List Access)
imx8q_evk_frequency fuel ack pll_arm_0 =
    let cleared = clear_low_bits pll_arm_0 in
    let started = set_bit 12 cleared in
    elim (wait_ack fuel ack) [
      | none ↦ none
      | some reads ↦ some (
          write_target_root_0 0x14000000
          ∷ write_pll_arm_1 0x4a
          ∷ write_pll_arm_0 cleared
          ∷ write_pll_arm_0 started
          ∷ (reads
              ++ write_pll_arm_0 (toggle_bit 12 (set_bit 11 started))
                ∷ write_target_root_0 0x11000000
                ∷ []))
    ]

-- The constructor of mnt_reform2, from the values of both registers that it writes fields of.
unfoldable pub mnt_reform2_frequency :
    (fuel : ℕ) (ack : ℕ → Bool) (target_root_0 pll_arm_0 : ℕ) → Option (List Access)
mnt_reform2_frequency fuel ack target_root_0 pll_arm_0 =
    let parked = write_field 24 3 4 target_root_0 in
    let cleared = write_field 0 5 0 pll_arm_0 in
    let started = write_field 12 1 1 cleared in
    elim (wait_ack fuel ack) [
      | none ↦ none
      | some reads ↦ some (
          write_target_root_0 parked
          ∷ write_pll_arm_1 0x4a
          ∷ write_pll_arm_0 cleared
          ∷ write_pll_arm_0 started
          ∷ (reads
              ++ write_pll_arm_0 (write_field 12 1 0 (set_bit 11 started))
                ∷ write_target_root_0 (write_field 24 3 1 parked)
                ∷ []))
    ]
