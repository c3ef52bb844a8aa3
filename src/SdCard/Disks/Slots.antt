-- ===== src/SdCard/Disks/Slots.antt =====
-- The table of four entries: free entries, and how often a disk stands in it.
use genode_imx.Base.{
  ℕ, zero, suc, ◌+◌, ◌≡◌, ◌≢◌, ◌<◌, ◌≤◌, ◌==◌, if◌then◌else◌, refl, ap, Ptr, null, List, [], ◌∷◌,
  arith, length, set,
}
use genode_imx.SdCard.Disks.{first_free, clear_disk}

-- How often a pointer stands in the table.
unfoldable pub count : Ptr → List Ptr → ℕ
count p [] = 0
count p (d ∷ ds) = (if d == p then 1 else 0) + count p ds

first_free-le : (ds : List Ptr) → first_free ds ≤ length ds
unfolding first_free
first_free-le [] = omega arith
first_free-le (d ∷ ds) = ground (arith, first_free-le ds)

-- A full table is one with no free entry.
pub first_free-full : (ds : List Ptr) → count null ds ≡ 0 → first_free ds ≡ length ds
unfolding first_free count
first_free-full [] h = refl
first_free-full (d ∷ ds) h = ground (arith, first_free-full ds)

pub first_free-lt : (ds : List Ptr) → count null ds ≢ 0 → first_free ds < length ds
unfolding first_free count
first_free-lt [] h = absurd (h refl)
first_free-lt (d ∷ ds) h = ground (arith, first_free-lt ds)

-- Filling the first free entry takes one free entry and adds one of the disk.
pub count-fill :
    (p disk : Ptr) (ds : List Ptr)
    → disk ≢ null
    → count null ds ≢ 0
    → count p (set ds (first_free ds) disk) + (if p == null then 1 else 0)
      ≡ count p ds + (if p == disk then 1 else 0)
unfolding first_free count
count-fill p disk [] hd h = absurd (h refl)
count-fill p disk (zero ∷ ds) hd h = ground arith
count-fill p disk (suc d ∷ ds) hd h = ground (arith, count-fill p disk ds hd)

pub length-clear_disk : (disk : Ptr) (ds : List Ptr) → length (clear_disk disk ds) ≡ length ds
unfolding clear_disk
length-clear_disk disk [] = refl
length-clear_disk disk (d ∷ ds) = ap suc (length-clear_disk disk ds)

-- Clearing a disk leaves none of it, frees its entries, and keeps all others.
pub count-clear_disk :
    (p disk : Ptr) (ds : List Ptr)
    → disk ≢ null
    → count p (clear_disk disk ds)
      ≡ (if p == disk then 0 else if p == null then count null ds + count disk ds else count p ds)
unfolding clear_disk count
count-clear_disk p disk [] hd = ground arith
count-clear_disk p disk (d ∷ ds) hd = ground (arith, count-clear_disk p disk ds hd)

clear_disk_absent : (disk : Ptr) (ds : List Ptr) → count disk ds ≡ 0 → clear_disk disk ds ≡ ds
unfolding clear_disk count
clear_disk_absent disk [] h = refl
clear_disk_absent disk (d ∷ ds) h = ground (arith, clear_disk_absent disk ds)

pub clear_disk-fill :
    (disk : Ptr) (ds : List Ptr)
    → count disk ds ≡ 0
    → clear_disk disk (set ds (first_free ds) disk) ≡ ds
unfolding clear_disk count first_free
clear_disk-fill disk [] h = refl
clear_disk-fill disk (zero ∷ ds) h = ground (arith, clear_disk_absent disk ds)
clear_disk-fill disk (suc d ∷ ds) h = ground (arith, clear_disk-fill disk ds)
