-- ===== src/SdCard/Disks.antt =====
-- The disks of src/drivers/sd_card/lx_user.c that are offered as block sessions:
-- `blk_register_queue` and `blk_unregister_queue` over the table `gendisks`.
pub mod Slots
pub mod Sessions
pub mod Balance
mod Tests
use genode_imx.Base.{
  ℕ, zero, suc, ℤ, pos, negsuc, Bool, ◌==◌, leb, if◌then◌else◌, Ptr, null, Name, List, [], ◌∷◌,
  ◌++◌, set,
}
use genode_imx.SdCard.Store.{Gendisk}

-- `MAX_GEN_DISKS`
abbrev pub max_gen_disks : ℕ
max_gen_disks = 4

-- The calls of the Genode block API: `genode_block_announce_device` with the name, the number of
-- sectors and whether the device is writeable, and `genode_block_discontinue_device`.
pub data Call : Type 0 where
  announce : Name → ℕ → ℕ → Call
  discontinue : Name → Call

-- The table, and the calls made so far, oldest first.
pub record Disks : Type 0 where
  pub gendisks : List Ptr
  pub calls : List Call

-- The loop for the first entry that is NULL: its index, or the table's length.
pub first_free : List Ptr → ℕ
first_free [] = 0
first_free (d ∷ ds) = if d == null then 0 else suc (first_free ds)

abbrev pub call : Call → Disks → Disks
call c s = record s { calls = s.calls ++ c ∷ [] }

abbrev pub announcement : Gendisk → Call
announcement g = announce g.disk_name g.capacity (if g.read_only then 0 else 1)

-- `blk_register_queue`
pub blk_register_queue : (Ptr → Gendisk) → Ptr → Disks → ℤ × Disks
unfolding first_free
blk_register_queue gendisk disk s =
    let idx = first_free s.gendisks in
    if leb max_gen_disks idx then (negsuc 0, s) else (
      pos 0,
      record (call (announcement (gendisk disk)) s) { gendisks = set s.gendisks idx disk },
    )

-- The loop that clears each entry of the disk.
pub clear_disk : Ptr → List Ptr → List Ptr
clear_disk disk [] = []
clear_disk disk (d ∷ ds) = (if d == disk then null else d) ∷ clear_disk disk ds

-- `blk_unregister_queue`
pub blk_unregister_queue : (Ptr → Gendisk) → Ptr → Disks → Disks
unfolding clear_disk
blk_unregister_queue gendisk disk s =
    call (discontinue (gendisk disk).disk_name) (record s { gendisks = clear_disk disk s.gendisks })
