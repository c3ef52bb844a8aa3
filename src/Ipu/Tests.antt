-- ===== src/Ipu/Tests.antt =====
-- A display of 800 times 480 pixels and a buffer at 0x70000000.
use genode_imx.Base.{
  ℕ, ◌+◌, ◌*◌, ◌/◌, ◌^◌, ◌≡◌, ◌≢◌, Bool, true, ltb, none, some, List, [], refl, arith,
}
use genode_imx.Ipu.Descriptor.{CpMem, init_dma_channel, descriptor}
use genode_imx.Ipu.Registers.{Access}
use genode_imx.Base.Poll.{poll}
use genode_imx.Ipu.Init.{wait_mem_rst, init}
use genode_imx.Ipu.Overlay.{overlay_words, descriptor-overlay_words}
use genode_imx.Ipu.Order.{nothing, KeepsOrder, init_lem}
use genode_imx.Ipu.Memory.{Describes, Suits, memory_after, init-Describes}

-- The reset is over at the third read.
abbrev busy : ℕ → Bool
busy n = ltb n 2

accesses : List Access
accesses = elim (init 5 busy 800 480 3200 0x70000000 true) [ none ↦ [] | some l ↦ l ]

init-accesses : init 5 busy 800 480 3200 0x70000000 true ≡ some accesses
unfolding accesses init wait_mem_rst poll
init-accesses = refl

init_lem_example :
    (l : List Access) × (init (2 + 1) busy 800 480 3200 0x70000000 true ≡ some l)
    × KeepsOrder 800 480 3200 0x70000000 true nothing l
init_lem_example = init_lem 800 480 3200 0x70000000 true busy 2 refl

suits : Suits 800 480 3200 0x70000000
suits = record {
  width_pos = omega arith;
  width_low = omega arith;
  height_pos = omega arith;
  height_low = omega arith;
  stride_pos = omega arith;
  stride_low = omega arith;
  address_low = omega arith;
  aligned = omega arith;
}

abbrev cleared : ℕ → List ℕ
cleared c = []

init-Describes_example :
    Describes 800 480 3200 0x70000000 (memory_after accesses cleared 23)
    × Describes 800 480 3200 0x70000000 (memory_after accesses cleared 27)
    × ((c : ℕ) → c ≢ 23 → c ≢ 27 → memory_after accesses cleared c ≡ cleared c)
init-Describes_example =
    init-Describes 800 480 3200 0x70000000 true 5 busy accesses cleared suits init-accesses

abbrev shown : CpMem
shown = init_dma_channel 800 480 3200 0x70000000

descriptor-overlay_words_example :
    overlay_words 0x72000000 (descriptor shown)
    ≡ descriptor (record shown {
      eba0 = 0x72000000 / 2 ^ 3;
      eba1 = 0x72000000 / 2 ^ 3;
      ilo = shown.ilo / 2 ^ 6 * 2 ^ 6;
    })
descriptor-overlay_words_example = descriptor-overlay_words shown 0x72000000 (omega arith)
