-- ===== src/Platform/Tree/Boards.antt =====
-- The trees of both boards: src/drivers/platform/imx8mq/ccm.h and src/drivers/platform/imx8mp/ccm.h.
use Prim.Native.String.{String}
use mathlib.Core.List.{reverse}
use text.Mathlib.Text.{◌==◌ as str_eq}
use genode_imx.Base.{
  ℕ, ◌≡◌, Bool, true, false, ◌&&◌, ◌||◌, ◌==◌, not, some, List, [], ◌∷◌, ◌++◌, refl,
}
use genode_imx.Platform.Tree.Clocks.{Clock, name_of, range_of, Registers, rate_of}
use genode_imx.Platform.FracPll.{parent_name}
use genode_imx.Platform.Tree.Sources.{sources, gates}
use genode_imx.Platform.Tree.RootsA.{roots_a}
use genode_imx.Platform.Tree.RootsB.{roots_b}
use genode_imx.Platform.Tree.RootsC.{roots_c}
use genode_imx.Platform.Tree.Imx8mp.Sources.{imx8mp_sources, imx8mp_gates}
use genode_imx.Platform.Tree.Imx8mp.RootsA.{imx8mp_roots_a}
use genode_imx.Platform.Tree.Imx8mp.RootsB.{imx8mp_roots_b}
use genode_imx.Platform.Tree.Imx8mp.RootsC.{imx8mp_roots_c}
use genode_imx.Platform.Tree.Closed.{
  declares, is_closed, Selects, IsRooted, rate_of-Found, tree-IsRooted,
}

-- The whole tree of each board, the latest clock first
unfoldable pub imx8mq_clocks : List Clock
imx8mq_clocks = reverse (sources ++ (roots_a ++ (roots_b ++ (roots_c ++ gates))))

unfoldable pub imx8mp_clocks : List Clock
imx8mp_clocks =
    reverse
      (imx8mp_sources ++ (imx8mp_roots_a ++ (imx8mp_roots_b ++ (imx8mp_roots_c ++ imx8mp_gates))))

-- The boards
pub data Board : Type 0 where
  imx8mq : Board
  imx8mp : Board

abbrev pub clocks_of : Board → List Clock
clocks_of imx8mq = imx8mq_clocks
clocks_of imx8mp = imx8mp_clocks

imx8mq_clocks_closed : is_closed imx8mq_clocks ≡ true
unfolding imx8mq_clocks sources gates roots_a roots_b roots_c name_of parent_name
imx8mq_clocks_closed = refl

imx8mp_clocks_closed : is_closed imx8mp_clocks ≡ true
unfolding imx8mp_clocks imx8mp_sources imx8mp_gates imx8mp_roots_a imx8mp_roots_b imx8mp_roots_c
    name_of parent_name
imx8mp_clocks_closed = refl

-- Every clock that the driver declares has a rate, on either board: asking for it ends, whatever the
-- registers hold, and from each clock on the parent that is asked for its rate is declared, the one
-- that a PLL looks for by its name included, up to a clock that asks none. The fields that select
-- parents have three bits for a root clock and two for a PLL, and that of a PLL of the imx8mp holds
-- one of the two values that have a name.
pub rate_of-clocks :
    (board : Board) (regs : Registers)
    → Selects regs
    → (name : String) → declares (clocks_of board) name ≡ true
    → ((r : ℕ) × (rate_of regs (clocks_of board) name ≡ some r))
      × IsRooted regs (clocks_of board) name
rate_of-clocks imx8mq regs selects name there = (
  rate_of-Found regs selects imx8mq_clocks name imx8mq_clocks_closed there,
  tree-IsRooted regs selects imx8mq_clocks name imx8mq_clocks_closed there,
)
rate_of-clocks imx8mp regs selects name there = (
  rate_of-Found regs selects imx8mp_clocks name imx8mp_clocks_closed there,
  tree-IsRooted regs selects imx8mp_clocks name imx8mp_clocks_closed there,
)

-- Two clocks clash, if they have the same name, or registers at the same address.
abbrev clash : Clock → Clock → Bool
clash c d = str_eq (name_of c) (name_of d) || (not (range_of c == 0) && range_of c == range_of d)

abbrev clashes : Clock → List Clock → Bool
clashes c [] = false
clashes c (d ∷ rest) = clash c d || clashes c rest

abbrev is_distinct : List Clock → Bool
is_distinct [] = true
is_distinct (c ∷ rest) = not (clashes c rest) && is_distinct rest

-- On neither board, two clocks have the same name, or registers at the same address.
imx8mq_clocks_distinct : is_distinct imx8mq_clocks ≡ true
unfolding imx8mq_clocks sources gates roots_a roots_b roots_c name_of range_of
imx8mq_clocks_distinct = refl

imx8mp_clocks_distinct : is_distinct imx8mp_clocks ≡ true
unfolding imx8mp_clocks imx8mp_sources imx8mp_gates imx8mp_roots_a imx8mp_roots_b imx8mp_roots_c
    name_of range_of
imx8mp_clocks_distinct = refl
