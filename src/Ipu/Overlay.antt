-- ===== src/Ipu/Overlay.antt =====
-- `overlay` of src/drivers/framebuffer/imx53/ipu.h writes two words of a descriptor; here is what
-- this does to its fields.
use genode_imx.Base.{ℕ, ◌+◌, ◌*◌, ◌/◌, ◌%◌, ◌^◌, ◌≡◌, ◌<◌, List, [], ◌∷◌, ◌++◌, set, ap, arith}
use genode_imx.Ipu.Descriptor.{CpMem, pack, first_half, words_of, descriptor}
use genode_imx.Ipu.Registers.{Access, write, dp_fg_pos_sync, gr_wnd_ctl_sync, dp_m_srm}

-- The two stores of `overlay` to the descriptor: a bitwise or is a sum here, since an address has
-- 32 bits and the two parts are disjoint.
unfoldable pub overlay_words : (phys_base : ℕ) → List ℕ → List ℕ
overlay_words phys_base words =
    let address = phys_base / 2 ^ 3 in
    set (set words 8 (((address % 2 ^ 3) * 2 ^ 29) % 2 ^ 32 + address)) 9 (phys_base / 2 ^ 6)

-- Its register writes, for an opacity and a position that are not negative, and a height of the
-- latter below 2 ^ 16.
unfoldable pub overlay_writes : (x y alpha : ℕ) → List Access
overlay_writes x y alpha =
    write dp_fg_pos_sync (((x * 2 ^ 16) % 2 ^ 32) + y)
    ∷ write dp_m_srm 1
    ∷ write gr_wnd_ctl_sync ((alpha * 2 ^ 24) % 2 ^ 32)
    ∷ write dp_m_srm 1
    ∷ []

second :
    (x y z r v : ℕ)
    → v < 2 ^ 32
    → let address = v / 2 ^ 3 in
      set
        (set
          (words_of (x % 2 ^ 29 + 2 ^ 29 * (y % 2 ^ 29 + 2 ^ 29 * (z % 2 ^ 20 + 2 ^ 20 * r))))
          0
          (((address % 2 ^ 3) * 2 ^ 29) % 2 ^ 32 + address))
        1
        (v / 2 ^ 6)
      ≡ words_of (
          address % 2 ^ 29
          + 2 ^ 29 * (address % 2 ^ 29 + 2 ^ 29 * ((z / 2 ^ 6 * 2 ^ 6) % 2 ^ 20 + 2 ^ 20 * r)))
second x y z r v low = ground arith

-- The stores to the words of a descriptor set the addresses of both buffers, and clear the six low
-- bits of the interlace offset, which lie in the same word; every other field stays. The address
-- has 32 bits.
pub descriptor-overlay_words :
    (c : CpMem) (phys_base : ℕ)
    → phys_base < 2 ^ 32
    → overlay_words phys_base (descriptor c)
      ≡ descriptor (record c {
        eba0 = phys_base / 2 ^ 3;
        eba1 = phys_base / 2 ^ 3;
        ilo = c.ilo / 2 ^ 6 * 2 ^ 6;
      })
unfolding overlay_words descriptor pack
descriptor-overlay_words c phys_base low =
    ap (λ l. words_of (pack (first_half c)) ++ l) (second c.eba0 c.eba1 c.ilo _ phys_base low)
