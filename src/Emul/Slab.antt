-- ===== src/Emul/Slab.antt =====
-- Bulk operations on a slab cache: `kmem_cache_alloc_bulk` of src/drivers/nic/fec/lx_emul.c and
-- `kmem_cache_free_bulk` of src/drivers/nic/fec_legacy/lx_emul.c.
pub mod Bulk
use genode_imx.Base.{
  ℕ, zero, suc, ◌-◌, ◌%◌, ◌^◌, ℤ, pos, negsuc, ltb, if◌then◌else◌, Ptr, List, [], ◌∷◌, ◌++◌, set,
}
use genode_imx.Base.Run.{Run, ok, fault}

-- The conversion of a `size_t` to an int.
pub int_of : ℕ → ℤ
int_of n = let low = n % 2 ^ 32 in if ltb low (2 ^ 31) then pos low else negsuc (2 ^ 32 - 1 - low)

-- `kmem_cache_alloc_bulk`, over what `kmalloc` returns for a size: the result, and the array.
pub kmem_cache_alloc_bulk : (ℕ → Ptr) → ℕ → List Ptr → ℤ × List Ptr
unfolding int_of
kmem_cache_alloc_bulk kmalloc size p = (int_of size, set p 0 (kmalloc size))

-- `kmem_cache_free_bulk`; the state are the objects given back so far, and reading past the end of
-- the array is a fault.
pub kmem_cache_free_bulk : ℕ → List Ptr → List Ptr → Run (List Ptr) (Unit {0})
kmem_cache_free_bulk zero p freed = ok tt freed
kmem_cache_free_bulk (suc n) [] freed = fault
kmem_cache_free_bulk (suc n) (x ∷ p) freed = kmem_cache_free_bulk n p (freed ++ x ∷ [])

-- `kmem_cache_alloc_lru`: the cache only gives the size.
abbrev pub kmem_cache_alloc_lru : (ℕ → Ptr) → (size lru : ℕ) → Ptr
kmem_cache_alloc_lru kmalloc size lru = kmalloc size

-- `kmem_cache_create_usercopy`, over `kmem_cache_create` of a size, an alignment, flags and a
-- constructor: the region for user copies is dropped.
abbrev pub kmem_cache_create_usercopy :
    (ℕ → ℕ → ℕ → Ptr → Ptr) → (size align flags useroffset usersize : ℕ) → (ctor : Ptr) → Ptr
kmem_cache_create_usercopy create size align flags useroffset usersize ctor =
    create size align flags ctor
