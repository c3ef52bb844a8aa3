-- ===== src/SdCard/Disks/Tests.antt =====
-- A table with two disks.
use genode_imx.Base.{negsuc, ◌≡◌, true, refl, Ptr, null, [], ◌∷◌, arith}
use genode_imx.SdCard.Store.{Gendisk}
use genode_imx.SdCard.Disks.{Disks, blk_register_queue, blk_unregister_queue}
use genode_imx.SdCard.Disks.Slots.{count}
use genode_imx.SdCard.Disks.Balance.{
  initial, Reach, start, next, register, unregister, IsBalanced, Reach-IsBalanced,
}

-- `mmcblk0`, read-only at every address.
abbrev disk : Ptr → Gendisk
disk p = record { disk_name = p ∷ []; capacity = 100; read_only = true; part0 = 1; queue = null }

abbrev two : Disks
two = record { gendisks = 11 ∷ null ∷ 12 ∷ null ∷ []; calls = [] }

abbrev four : Disks
four = record { gendisks = 11 ∷ 12 ∷ 13 ∷ 14 ∷ []; calls = [] }

register_second : (blk_register_queue disk 13 two).1.gendisks ≡ 11 ∷ 13 ∷ 12 ∷ null ∷ []
unfolding blk_register_queue
register_second = refl

register_fifth : blk_register_queue disk 15 four ≡ (negsuc 0, four)
unfolding blk_register_queue
register_fifth = refl

abbrev replugged : Disks
replugged =
    (blk_register_queue disk 12
      (blk_unregister_queue disk 11 (blk_register_queue disk 11 initial).1)).1

replugged-Reach : Reach disk replugged
unfolding count blk_register_queue blk_unregister_queue
replugged-Reach =
    next
      (next (next start (register 11 initial (omega arith) refl))
        (unregister 11 (blk_register_queue disk 11 initial).1 (omega arith) refl))
      (register 12 (blk_unregister_queue disk 11 (blk_register_queue disk 11 initial).1)
        (omega arith) refl)

Reach-IsBalanced_example : IsBalanced disk replugged
Reach-IsBalanced_example = Reach-IsBalanced disk replugged-Reach
