-- ===== src/Emul/Slab/Bulk.antt =====
-- What the bulk operations do to their arrays.
use genode_imx.Base.{
  ℕ, zero, suc, ◌%◌, ◌^◌, ◌≡◌, ◌<◌, ◌≤◌, pos, sym, ap, ◌∙◌, Ptr, List, [], ◌∷◌, ◌++◌, length, take,
  get_or, get_or-set_ne, get_or-set_self, append-nil, append_assoc, arith,
}
use genode_imx.Base.Run.{ok}
use genode_imx.Emul.Slab.{int_of, kmem_cache_alloc_bulk, kmem_cache_free_bulk}

-- Asked for fewer than 2^31 objects, `kmem_cache_alloc_bulk` reports that many, but writes only
-- the first entry of the array: every other entry holds what it held before.
pub kmem_cache_alloc_bulk_lem :
    (kmalloc : ℕ → Ptr) (size : ℕ) (p : List Ptr) (d : Ptr)
    → size < 2 ^ 31
    → 0 < length p
    → ((kmem_cache_alloc_bulk kmalloc size p).0 ≡ pos size)
      × (get_or (kmem_cache_alloc_bulk kmalloc size p).1 0 d ≡ kmalloc size)
      × ((i : ℕ) → 0 < i → get_or (kmem_cache_alloc_bulk kmalloc size p).1 i d ≡ get_or p i d)
unfolding kmem_cache_alloc_bulk int_of
kmem_cache_alloc_bulk_lem kmalloc size p d small some_slot =
    let low : size % 2 ^ 32 ≡ size = omega arith in
    (
      ground arith,
      get_or-set_self p 0 (kmalloc size) d some_slot,
      λ i later. get_or-set_ne p 0 i (kmalloc size) d (omega arith),
    )

-- `kmem_cache_free_bulk` gives back exactly the first `size` objects of the array, in their order,
-- where the array has that many.
pub kmem_cache_free_bulk_lem :
    (size : ℕ) (p freed : List Ptr)
    → size ≤ length p
    → kmem_cache_free_bulk size p freed ≡ ok tt (freed ++ take size p)
unfolding kmem_cache_free_bulk
kmem_cache_free_bulk_lem zero p freed h = ap (ok tt) (sym (append-nil freed))
kmem_cache_free_bulk_lem (suc n) [] freed h = absurd (omega arith)
kmem_cache_free_bulk_lem (suc n) (x ∷ p) freed h =
    kmem_cache_free_bulk_lem n p (freed ++ x ∷ []) (omega arith)
    ∙ ap (ok tt) (append_assoc freed (x ∷ []) (take n p))
