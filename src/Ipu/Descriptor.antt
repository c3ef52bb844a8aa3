-- ===== src/Ipu/Descriptor.antt =====
-- `Ipu::Cp_mem` of src/drivers/framebuffer/imx53/ipu.h: the descriptor of a DMA channel, its
-- layout in memory as 16 words, and `_init_dma_channel`.
use genode_imx.Base.{ℕ, ◌+◌, ◌-◌, ◌*◌, ◌/◌, ◌%◌, ◌^◌, List, [], ◌∷◌, ◌++◌}

-- The packed structure, less its unused words; `cap_polarity` and `axi_id` are `cap` and `id`.
pub record CpMem : Type 0 where
  pub xv : ℕ
  pub yv : ℕ
  pub xb : ℕ
  pub yb : ℕ
  pub nsb_b : ℕ
  pub cf : ℕ
  pub sx : ℕ
  pub sy : ℕ
  pub ns : ℕ
  pub sdx : ℕ
  pub sm : ℕ
  pub scc : ℕ
  pub sce : ℕ
  pub sdy : ℕ
  pub sdrx : ℕ
  pub sdry : ℕ
  pub bpp : ℕ
  pub dec_sel : ℕ
  pub dim : ℕ
  pub so : ℕ
  pub bndm : ℕ
  pub bm : ℕ
  pub rot : ℕ
  pub hf : ℕ
  pub vf : ℕ
  pub the : ℕ
  pub cap_polarity : ℕ
  pub cae : ℕ
  pub fw : ℕ
  pub fh : ℕ
  pub res0 : ℕ
  pub eba0 : ℕ
  pub eba1 : ℕ
  pub ilo : ℕ
  pub npb : ℕ
  pub pfs : ℕ
  pub alu : ℕ
  pub albm : ℕ
  pub axi_id : ℕ
  pub th : ℕ
  pub sly : ℕ
  pub wid0 : ℕ
  pub wid1 : ℕ
  pub wid2 : ℕ
  pub wid3 : ℕ
  pub off0 : ℕ
  pub off1 : ℕ
  pub off2 : ℕ
  pub off3 : ℕ
  pub sxys : ℕ
  pub cre : ℕ
  pub dec_sel2 : ℕ
  pub res2 : ℕ

-- Bit fields in their order, from the lowest bit on: each cuts off what it cannot hold.
unfoldable pub pack : List (ℕ × ℕ) → ℕ
pack [] = 0
pack ((width, value) ∷ rest) = value % 2 ^ width + 2 ^ width * pack rest

-- The fields before and behind the unused words, with their widths.
abbrev pub first_half : CpMem → List (ℕ × ℕ)
first_half c =
    (10, c.xv)
    ∷ (9, c.yv)
    ∷ (13, c.xb)
    ∷ (12, c.yb)
    ∷ (1, c.nsb_b)
    ∷ (1, c.cf)
    ∷ (12, c.sx)
    ∷ (11, c.sy)
    ∷ (10, c.ns)
    ∷ (7, c.sdx)
    ∷ (10, c.sm)
    ∷ (1, c.scc)
    ∷ (1, c.sce)
    ∷ (7, c.sdy)
    ∷ (1, c.sdrx)
    ∷ (1, c.sdry)
    ∷ (3, c.bpp)
    ∷ (2, c.dec_sel)
    ∷ (1, c.dim)
    ∷ (1, c.so)
    ∷ (3, c.bndm)
    ∷ (2, c.bm)
    ∷ (1, c.rot)
    ∷ (1, c.hf)
    ∷ (1, c.vf)
    ∷ (1, c.the)
    ∷ (1, c.cap_polarity)
    ∷ (1, c.cae)
    ∷ (13, c.fw)
    ∷ (12, c.fh)
    ∷ (10, c.res0)
    ∷ []

abbrev pub second_half : CpMem → List (ℕ × ℕ)
second_half c =
    (29, c.eba0)
    ∷ (29, c.eba1)
    ∷ (20, c.ilo)
    ∷ (7, c.npb)
    ∷ (4, c.pfs)
    ∷ (1, c.alu)
    ∷ (3, c.albm)
    ∷ (2, c.axi_id)
    ∷ (7, c.th)
    ∷ (14, c.sly)
    ∷ (3, c.wid0)
    ∷ (3, c.wid1)
    ∷ (3, c.wid2)
    ∷ (3, c.wid3)
    ∷ (5, c.off0)
    ∷ (5, c.off1)
    ∷ (5, c.off2)
    ∷ (5, c.off3)
    ∷ (1, c.sxys)
    ∷ (1, c.cre)
    ∷ (1, c.dec_sel2)
    ∷ (9, c.res2)
    ∷ []

-- The words of 160 bits, and three unused ones.
abbrev pub words_of : ℕ → List ℕ
words_of n =
    n % 2 ^ 32
    ∷ n / 2 ^ 32 % 2 ^ 32
    ∷ n / 2 ^ 64 % 2 ^ 32
    ∷ n / 2 ^ 96 % 2 ^ 32
    ∷ n / 2 ^ 128 % 2 ^ 32
    ∷ 0
    ∷ 0
    ∷ 0
    ∷ []

-- The descriptor as it lies in memory.
unfoldable pub descriptor : CpMem → List ℕ
unfolding pack
descriptor c = words_of (pack (first_half c)) ++ words_of (pack (second_half c))

-- `Cp_mem`'s constructor
abbrev pub empty : CpMem
empty = record {
  xv = 0;
  yv = 0;
  xb = 0;
  yb = 0;
  nsb_b = 0;
  cf = 0;
  sx = 0;
  sy = 0;
  ns = 0;
  sdx = 0;
  sm = 0;
  scc = 0;
  sce = 0;
  sdy = 0;
  sdrx = 0;
  sdry = 0;
  bpp = 0;
  dec_sel = 0;
  dim = 0;
  so = 0;
  bndm = 0;
  bm = 0;
  rot = 0;
  hf = 0;
  vf = 0;
  the = 0;
  cap_polarity = 0;
  cae = 0;
  fw = 0;
  fh = 0;
  res0 = 0;
  eba0 = 0;
  eba1 = 0;
  ilo = 0;
  npb = 0;
  pfs = 0;
  alu = 0;
  albm = 0;
  axi_id = 0;
  th = 0;
  sly = 0;
  wid0 = 0;
  wid1 = 0;
  wid2 = 0;
  wid3 = 0;
  off0 = 0;
  off1 = 0;
  off2 = 0;
  off3 = 0;
  sxys = 0;
  cre = 0;
  dec_sel2 = 0;
  res2 = 0;
}

-- The descriptor that `_init_dma_channel` makes: the differences are ints, and where one is
-- negative its low bits are kept.
unfoldable pub init_dma_channel : (width height stride phys_base : ℕ) → CpMem
init_dma_channel width height stride phys_base = record empty {
  fw = (width + 2 ^ 32 - 1) % 2 ^ 32;
  fh = (height + 2 ^ 32 - 1) % 2 ^ 32;
  sly = (stride + 2 ^ 32 - 1) % 2 ^ 32;
  eba0 = phys_base / 2 ^ 3;
  eba1 = phys_base / 2 ^ 3;
  bpp = 0;
  pfs = 7;
  npb = 15;
  wid0 = 7;
  off0 = 8;
  wid1 = 7;
  off1 = 16;
  wid2 = 7;
  off2 = 24;
  wid3 = 7;
  off3 = 0;
}
