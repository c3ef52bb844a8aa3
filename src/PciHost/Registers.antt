-- ===== src/PciHost/Registers.antt =====
-- The registers that src/drivers/pci_host/imx8mq/main.cc writes, by the names they have there.
use Prim.Native.String.{String}
use genode_imx.Base.{
  ℕ, zero, suc, ◌+◌, ◌-◌, ◌/◌, ◌%◌, ◌^◌, Bool, true, false, if◌then◌else◌, List, [], ◌∷◌, ◌++◌,
}

-- A write to a register or a field of the controller, of its outbound window `i`, of its
-- configuration space or of that of the device behind it, or a call for one of the latter.
pub data Write : Type 0 where
  host : (reg : String) → (value : ℕ) → Write
  atu : (i : ℕ) → (reg : String) → (value : ℕ) → Write
  bridge device : (reg : String) → (value : ℕ) → Write
  bridge_call device_call : (name : String) → Write

-- The hardware: whether link and window are up, and what a pause and a write do to it.
pub record Hardware (W : Type 0) : Type 0 where
  pub link_up : W → Bool
  pub atu_up : W → Bool
  pub msleep : ℕ → W → W
  pub write : Write → W → W
  pub read : String → W → ℕ

-- The hardware and what was written to it.
pub record Machine (W : Type 0) : Type 0 where
  pub world : W
  pub writes : List Write

-- The layout of a controller's region
abbrev pub memory_base : ℕ
memory_base = 0

abbrev pub memory_size : ℕ
memory_size = 0x7f00000

abbrev pub memory_per_device : ℕ
memory_per_device = 0x100000

abbrev pub config_base : ℕ
config_base = memory_base + memory_size

abbrev pub config_size : ℕ
config_size = 0x80000

abbrev pub pci_io_base : ℕ
pci_io_base = config_base + config_size

abbrev pub io_size : ℕ
io_size = 0x10000

abbrev pub bus_count_per_controller : ℕ
bus_count_per_controller = 16

-- `Transaction_type`
pub data Transaction : Type 0 where
  memory_request io_request config_type_0_request config_type_1_request : Transaction

abbrev pub code_of : Transaction → ℕ
code_of memory_request = 0
code_of io_request = 2
code_of config_type_0_request = 4
code_of config_type_1_request = 5

-- `Register_64bit`
abbrev pub lower : ℕ → ℕ
lower v = v % 2 ^ 32

abbrev pub upper : ℕ → ℕ
upper v = (v / 2 ^ 32) % 2 ^ 32

-- `Atu::configure_outbound`; `Enable` is bit 31, `Type` are bits 0 to 4.
unfoldable pub configure_outbound :
    (i : ℕ) → Transaction → (cpu_addr size pci_addr : ℕ) → List Write
configure_outbound i type cpu_addr size pci_addr =
    atu i "region_control_1" (code_of type)
    ∷ atu i "region_control_2" (2 ^ 31)
    ∷ atu i "lower_base_addr" (lower cpu_addr)
    ∷ atu i "upper_base_addr" (upper cpu_addr)
    ∷ atu i "limit_addr" (lower ((cpu_addr + size + (2 ^ 64 - 1)) % 2 ^ 64))
    ∷ atu i "lower_target_addr" (lower pci_addr)
    ∷ atu i "upper_target_addr" (upper pci_addr)
    ∷ []

-- `Atu::disable_outbound`
unfoldable pub disable_outbound : (i : ℕ) → List Write
disable_outbound i = atu i "region_control_2" (2 ^ 31) ∷ []

module _ {W : Type 0} (hw : Hardware W) where
  -- Writes one after the other.
  unfoldable pub do_writes : List Write → Machine W → Machine W
  do_writes [] m = m
  do_writes (w ∷ ws) m =
      do_writes ws (record { world = hw.write w m.world; writes = m.writes ++ w ∷ [] })

  abbrev pub pause : ℕ → Machine W → Machine W
  pause ms m = record m { world = hw.msleep ms m.world }

  -- The loop of `wait_for_link` for `rounds` rounds.
  unfoldable pub poll_link : (rounds : ℕ) → Machine W → Bool × Machine W
  poll_link zero m = (false, m)
  poll_link (suc n) m =
      let later = poll_link n (pause 100 m) in if hw.link_up m.world then (true, m) else later

  -- `wait_for_link`
  unfoldable pub wait_for_link : Machine W → Bool × Machine W
  wait_for_link m = poll_link 10 m

  -- The loop of `wait_for_atu` for `rounds` rounds, which is followed by `return true`.
  unfoldable pub poll_atu : (rounds : ℕ) → Machine W → Bool × Machine W
  poll_atu zero m = (true, m)
  poll_atu (suc n) m =
      let later = poll_atu n (pause 10 m) in if hw.atu_up m.world then (true, m) else later

  -- `wait_for_atu`
  unfoldable pub wait_for_atu : Machine W → Bool × Machine W
  wait_for_atu m = poll_atu 10 m
