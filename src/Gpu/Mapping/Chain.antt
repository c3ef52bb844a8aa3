-- ===== src/Gpu/Mapping/Chain.antt =====
-- When a buffer's memory is found.
use genode_imx.Base.{ℕ, ◌+◌, ◌*◌, ◌/◌, ◌≡◌, ◌<◌, arith}
use genode_imx.Gpu.Mapping.{Objects, page_size, genode_lookup_mapping_from_offset}

-- The lookup depends on the pages alone: any two offsets into one page, with sizes of the same
-- number of pages, find the same memory.
pub genode_lookup_mapping_from_offset-page :
    (o : Objects) (p page pages i j k l : ℕ)
    → i < page_size
    → j < page_size
    → k < page_size
    → l < page_size
    → genode_lookup_mapping_from_offset o p (page * page_size + i) (pages * page_size + k)
      ≡ genode_lookup_mapping_from_offset o p (page * page_size + j) (pages * page_size + l)
unfolding genode_lookup_mapping_from_offset
genode_lookup_mapping_from_offset-page o p page pages i j k l hi hj hk hl =
    let same : (page * page_size + i) / page_size ≡ (page * page_size + j) / page_size =
      omega arith in
    let same_size : (pages * page_size + k) / page_size ≡ (pages * page_size + l) / page_size =
      omega arith in
    ground (arith, same, same_size)
