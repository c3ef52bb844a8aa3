-- ===== src/SdCard/Bdevs/Lookup.antt =====
-- Which device a number finds.
use genode_imx.Base.{
  ℕ, ◌≡◌, ◌≢◌, ◌<◌, inl, inr, Bool-cases, ltb, ltb→lt, ◌∙◌, ◌==◌, if◌then◌else◌, Ptr, null, arith,
  get_or, set, length, length-set, get_or-set_self, get_or-set_ne,
}
use genode_imx.Base.Run.{ok, stopped}
use genode_imx.SdCard.Store.{Store, Kernel}
use genode_imx.SdCard.Bdevs.{max_bdev, set_dev, bdev_add, blkdev_get_by_dev}

abbrev pub added : Kernel → Ptr → ℕ → Store → Store
added k bdev dev s =
    let t = set_dev bdev dev s in record t { bdevs = set t.bdevs (k.major dev) bdev }

-- `bdev_add` stops the system for a number whose major part is out of the table's range, and
-- otherwise returns with the device in the table. After that, a lookup finds the device for each
-- number with its major part, whatever the minor part, and for any other number what it found
-- before.
pub blkdev_get_by_dev-bdev_add :
    (k : Kernel) (bdev dev other : ℕ) (s : Store)
    → length s.bdevs ≡ max_bdev
    → (bdev_add k bdev dev s
        ≡ (if ltb (k.major dev) max_bdev then ok tt (added k bdev dev s) else stopped))
      × (k.major dev < max_bdev
          → blkdev_get_by_dev k other (added k bdev dev s)
            ≡ (if k.major other == k.major dev then bdev else blkdev_get_by_dev k other s))
unfolding bdev_add blkdev_get_by_dev
blkdev_get_by_dev-bdev_add k bdev dev other s len = (
  ground arith,
  λ small. elim (Bool-cases (k.major other == k.major dev)) [
    | inl same ↦ ground (arith, get_or-set_self s.bdevs (k.major dev) bdev null)
    | inr apart ↦ ground (arith, get_or-set_ne s.bdevs (k.major dev) (k.major other) bdev null)
  ],
)

-- Two devices whose numbers agree in the major part share one entry: once the second is added,
-- the first one's number finds the second.
pub bdev_add_shadows :
    (k : Kernel) (first second dev dev' : ℕ) (s : Store)
    → length s.bdevs ≡ max_bdev
    → k.major dev ≡ k.major dev'
    → k.major dev < max_bdev
    → blkdev_get_by_dev k dev (added k second dev' (added k first dev s)) ≡ second
unfolding blkdev_get_by_dev
bdev_add_shadows k first second dev dev' s len same small = ground (
  arith,
  length-set s.bdevs (k.major dev) first,
  get_or-set_self (set s.bdevs (k.major dev) first) (k.major dev) second null,
)

-- Each entry of the table is a device whose number has the entry's index for its major part.
pub record IsTable (k : Kernel) (s : Store) : Type 0 where
  pub size : length s.bdevs ≡ max_bdev
  pub matches :
      (i : ℕ) → get_or s.bdevs i null ≢ null → k.major (s.bdev (get_or s.bdevs i null)).bd_dev ≡ i

added-matches :
    (k : Kernel) (bdev dev : ℕ) (s : Store)
    → IsTable k s
    → ((i : ℕ) → get_or s.bdevs i null ≡ bdev → bdev ≡ null)
    → k.major dev < max_bdev
    → let t = added k bdev dev s in
      (i : ℕ) → get_or t.bdevs i null ≢ null → k.major (t.bdev (get_or t.bdevs i null)).bd_dev ≡ i
added-matches k bdev dev s table fresh small i found = elim (Bool-cases (i == k.major dev)) [
  | inl same ↦
      let here : get_or (set s.bdevs (k.major dev) bdev) i null ≡ bdev =
        ground (arith, table.size, get_or-set_self s.bdevs (k.major dev) bdev null) in
      rw here (ground arith)
  | inr apart ↦
      let there : get_or (set s.bdevs (k.major dev) bdev) i null ≡ get_or s.bdevs i null =
        ground (arith, get_or-set_ne s.bdevs (k.major dev) i bdev null) in
      let before : get_or s.bdevs i null ≢ null = rw there at found in
      rw there (ground (arith, table.matches i before, fresh i))
]

-- Adding a device that the table does not hold yet keeps the table's invariant.
pub bdev_add-IsTable :
    (k : Kernel) (bdev dev : ℕ) (s t : Store)
    → IsTable k s
    → ((i : ℕ) → get_or s.bdevs i null ≡ bdev → bdev ≡ null)
    → bdev_add k bdev dev s ≡ ok tt t
    → IsTable k t
bdev_add-IsTable k bdev dev s t table fresh run = elim (Bool-cases (ltb (k.major dev) max_bdev)) [
  | inl small ↦
      let e : added k bdev dev s ≡ t = unfold bdev_add in ground arith in
      rw (← e) (record {
        size = length-set s.bdevs (k.major dev) bdev ∙ table.size;
        matches = added-matches k bdev dev s table fresh (ltb→lt _ _ small);
      })
  | inr large ↦ absurd (unfold bdev_add in ground arith)
]

-- In a table with the invariant a lookup finds nothing, or a device whose number has the major
-- part that was asked for.
pub blkdev_get_by_dev-major :
    (k : Kernel) (dev : ℕ) (s : Store)
    → IsTable k s
    → blkdev_get_by_dev k dev s ≢ null
    → k.major (s.bdev (blkdev_get_by_dev k dev s)).bd_dev ≡ k.major dev
unfolding blkdev_get_by_dev
blkdev_get_by_dev-major k dev s table found = ground (arith, table.matches (k.major dev))
