-- ===== src/SdCard/Disks/Sessions.antt =====
-- Registering and unregistering disks, and the block sessions that are open in consequence.
use genode_imx.Base.{
  pos, negsuc, ◌+◌, ◌≡◌, ◌≢◌, ◌==◌, if◌then◌else◌, refl, Ptr, null, [], ◌∷◌, ◌++◌, arith, length,
  length-set,
}
use genode_imx.SdCard.Store.{Gendisk}
use genode_imx.SdCard.Disks.{
  max_gen_disks, Disks, discontinue, first_free, announcement, blk_register_queue,
  blk_unregister_queue,
}
use genode_imx.SdCard.Disks.Slots.{
  count, first_free-full, first_free-lt, count-fill, length-clear_disk, count-clear_disk,
  clear_disk-fill,
}

-- With a free entry, `blk_register_queue` returns 0, puts the disk into one free entry and no
-- other, and announces it once; without one it returns -1, announces nothing and changes nothing.
pub blk_register_queue_lem :
    (g : Ptr → Gendisk) (disk : Ptr) (s : Disks)
    → disk ≢ null
    → length s.gendisks ≡ max_gen_disks
    → let (r, t) = blk_register_queue g disk s in
      ((count null s.gendisks ≡ 0) → (r ≡ negsuc 0) × (t ≡ s))
      × ((count null s.gendisks ≢ 0)
          → (r ≡ pos 0)
            × (t.calls ≡ s.calls ++ announcement (g disk) ∷ [])
            × (length t.gendisks ≡ max_gen_disks)
            × ((p : Ptr)
                → count p t.gendisks + (if p == null then 1 else 0)
                  ≡ count p s.gendisks + (if p == disk then 1 else 0)))
unfolding blk_register_queue
blk_register_queue_lem g disk s ne len = (
  λ full. ground (arith, first_free-full s.gendisks full),
  λ room. (
    ground (arith, first_free-lt s.gendisks room),
    ground (arith, first_free-lt s.gendisks room),
    ground
        (arith, first_free-lt s.gendisks room, length-set s.gendisks (first_free s.gendisks) disk),
    λ p. ground (arith, first_free-lt s.gendisks room, count-fill p disk s.gendisks ne room),
  ),
)

-- `blk_unregister_queue` frees every entry of the disk and no other, keeps all other disks, and
-- ends the disk's session with one call, whether or not the disk was in the table.
pub blk_unregister_queue_lem :
    (g : Ptr → Gendisk) (disk : Ptr) (s : Disks)
    → disk ≢ null
    → let t = blk_unregister_queue g disk s in
      (t.calls ≡ s.calls ++ discontinue (g disk).disk_name ∷ [])
      × (length t.gendisks ≡ length s.gendisks)
      × (count disk t.gendisks ≡ 0)
      × (count null t.gendisks ≡ count null s.gendisks + count disk s.gendisks)
      × ((p : Ptr) → p ≢ disk → p ≢ null → count p t.gendisks ≡ count p s.gendisks)
unfolding blk_unregister_queue
blk_unregister_queue_lem g disk s ne = (
  refl,
  length-clear_disk disk s.gendisks,
  ground (arith, count-clear_disk disk disk s.gendisks ne),
  ground (arith, count-clear_disk null disk s.gendisks ne),
  λ p apart live. ground (arith, count-clear_disk p disk s.gendisks ne),
)

-- Unregistering a disk right after it was registered in a free entry gives the table back as it
-- was, if the disk was not in it.
pub blk_unregister_queue-blk_register_queue :
    (g : Ptr → Gendisk) (disk : Ptr) (s : Disks)
    → length s.gendisks ≡ max_gen_disks
    → count null s.gendisks ≢ 0
    → count disk s.gendisks ≡ 0
    → (blk_unregister_queue g disk (blk_register_queue g disk s).1).gendisks ≡ s.gendisks
unfolding blk_register_queue blk_unregister_queue
blk_unregister_queue-blk_register_queue g disk s len room absent =
    ground (arith, first_free-lt s.gendisks room, clear_disk-fill disk s.gendisks absent)
