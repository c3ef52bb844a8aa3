-- ===== src/SdCard/Disks/Balance.antt =====
-- Sessions and table entries stay in balance, whatever the order of the kernel's calls.
use genode_imx.Base.{
  ℕ, zero, suc, ◌+◌, ◌≡◌, ◌≢◌, ◌≤◌, ◌==◌, if◌then◌else◌, Bool, inl, inr, Bool-cases, ◌∙◌, refl, Ptr,
  null, Name, List, [], ◌∷◌, ◌++◌, arith, length, set, replicate,
}
use genode_imx.SdCard.Store.{Gendisk}
use genode_imx.SdCard.Disks.{
  max_gen_disks, Disks, Call, announce, discontinue, first_free, announcement, blk_register_queue,
  clear_disk, blk_unregister_queue,
}
use genode_imx.SdCard.Disks.Slots.{count, first_free-full, first_free-lt}
use genode_imx.SdCard.Disks.Sessions.{blk_register_queue_lem, blk_unregister_queue_lem}

-- The announcements, and the ends of sessions, under the names that a test accepts.
pub announced : (Name → Bool) → List Call → ℕ
announced P [] = 0
announced P (announce n b w ∷ cs) = (if P n then 1 else 0) + announced P cs
announced P (discontinue n ∷ cs) = announced P cs

pub discontinued : (Name → Bool) → List Call → ℕ
discontinued P [] = 0
discontinued P (announce n b w ∷ cs) = discontinued P cs
discontinued P (discontinue n ∷ cs) = (if P n then 1 else 0) + discontinued P cs

-- The entries of the table under such names.
pub offered : (Ptr → Gendisk) → (Name → Bool) → List Ptr → ℕ
offered g P [] = 0
offered g P (d ∷ ds) =
    (if d == null then 0 else if P (g d).disk_name then 1 else 0) + offered g P ds

-- One call by the kernel: of a disk that is not registered yet, or of one that is.
pub data Step (g : Ptr → Gendisk) : Disks → Disks → Type 0 where
  register :
      (disk : Ptr) (s : Disks)
      → disk ≢ null
      → count disk s.gendisks ≡ 0
      → Step g s (blk_register_queue g disk s).1
  unregister :
      (disk : Ptr) (s : Disks)
      → disk ≢ null
      → count disk s.gendisks ≡ 1
      → Step g s (blk_unregister_queue g disk s)

abbrev pub initial : Disks
initial = record { gendisks = replicate max_gen_disks null; calls = [] }

pub data Reach (g : Ptr → Gendisk) : Disks → Type 0 where
  start : Reach g initial
  next : {s t : Disks} → Reach g s → Step g s t → Reach g t

module _ (P : Name → Bool) where
  announced-append :
      (cs : List Call) (c : Call)
      → announced P (cs ++ c ∷ []) ≡ announced P cs + announced P (c ∷ [])
  unfolding announced
  announced-append [] c = omega arith
  announced-append (announce n b w ∷ cs) c = omega (arith, announced-append cs c)
  announced-append (discontinue n ∷ cs) c = announced-append cs c

  discontinued-append :
      (cs : List Call) (c : Call)
      → discontinued P (cs ++ c ∷ []) ≡ discontinued P cs + discontinued P (c ∷ [])
  unfolding discontinued
  discontinued-append [] c = omega arith
  discontinued-append (announce n b w ∷ cs) c = discontinued-append cs c
  discontinued-append (discontinue n ∷ cs) c = omega (arith, discontinued-append cs c)

module _ (g : Ptr → Gendisk) (P : Name → Bool) where
  offered-fill :
      (disk : Ptr) (ds : List Ptr)
      → disk ≢ null
      → count null ds ≢ 0
      → offered g P (set ds (first_free ds) disk)
        ≡ offered g P ds + (if P (g disk).disk_name then 1 else 0)
  unfolding offered first_free count
  offered-fill disk [] ne room = absurd (room refl)
  offered-fill disk (zero ∷ ds) ne room = ground arith
  offered-fill disk (suc d ∷ ds) ne room = ground (arith, offered-fill disk ds ne)

  offered-clear_disk :
      (disk : Ptr) (ds : List Ptr)
      → disk ≢ null
      → offered g P (clear_disk disk ds) + (if P (g disk).disk_name then count disk ds else 0)
        ≡ offered g P ds
  unfolding offered clear_disk count
  offered-clear_disk disk [] ne = ground arith
  offered-clear_disk disk (d ∷ ds) ne = ground (arith, offered-clear_disk disk ds ne)

-- Four entries, no disk twice, and for any choice of names as many announcements as sessions
-- ended and entries in the table together.
pub record IsBalanced (g : Ptr → Gendisk) (s : Disks) : Type 0 where
  pub size : length s.gendisks ≡ max_gen_disks
  pub once : (p : Ptr) → p ≢ null → count p s.gendisks ≤ 1
  pub balance :
      (P : Name → Bool) → announced P s.calls ≡ discontinued P s.calls + offered g P s.gendisks

module _ (g : Ptr → Gendisk) where
  register-balance :
      (disk : Ptr) (s : Disks) (P : Name → Bool)
      → disk ≢ null
      → length s.gendisks ≡ max_gen_disks
      → let t = (blk_register_queue g disk s).1 in
        announced P s.calls ≡ discontinued P s.calls + offered g P s.gendisks
        → announced P t.calls ≡ discontinued P t.calls + offered g P t.gendisks
  unfolding blk_register_queue announced discontinued
  register-balance disk s P ne len before = elim (Bool-cases (count null s.gendisks == 0)) [
    | inl full ↦ ground (arith, first_free-full s.gendisks)
    | inr room ↦ ground (
      arith,
      first_free-lt s.gendisks,
      announced-append P s.calls (announcement (g disk)),
      discontinued-append P s.calls (announcement (g disk)),
      offered-fill g P disk s.gendisks ne,
    )
  ]

  unregister-balance :
      (disk : Ptr) (s : Disks) (P : Name → Bool)
      → disk ≢ null
      → count disk s.gendisks ≡ 1
      → let t = blk_unregister_queue g disk s in
        announced P s.calls ≡ discontinued P s.calls + offered g P s.gendisks
        → announced P t.calls ≡ discontinued P t.calls + offered g P t.gendisks
  unfolding blk_unregister_queue announced discontinued
  unregister-balance disk s P ne one before = ground (
    arith,
    announced-append P s.calls (discontinue (g disk).disk_name),
    discontinued-append P s.calls (discontinue (g disk).disk_name),
    offered-clear_disk g P disk s.gendisks ne,
  )

  Step-IsBalanced : {s t : Disks} → Step g s t → IsBalanced g s → IsBalanced g t
  Step-IsBalanced (register disk s ne absent) b =
      let (full, room) = blk_register_queue_lem g disk s ne b.size in
      elim (Bool-cases (count null s.gendisks == 0)) [
        | inl no_room ↦ let same = (full (ground arith)).1 in rw same b
        | inr has_room ↦
            let (_, _, size, counts) = room (ground arith) in
            record {
              size = size;
              once = λ p live. ground (arith, counts p, b.once p live);
              balance = λ P. register-balance disk s P ne b.size (b.balance P);
            }
      ]
  Step-IsBalanced (unregister disk s ne one) b =
      let (_, size, gone, free, others) = blk_unregister_queue_lem g disk s ne in
      record {
        size = size ∙ b.size;
        once = λ p live. elim (Bool-cases (p == disk)) [
          | inl same ↦ ground (arith, gone)
          | inr apart ↦ ground (arith, others p (ground arith) live, b.once p live)
        ];
        balance = λ P. unregister-balance disk s P ne one (b.balance P);
      }

  -- Whatever the order in which the kernel registers disks that are not in the table and
  -- unregisters disks that are, no disk stands in the table twice, and of any choice of names
  -- there are as many announced sessions not yet discontinued as registered disks.
  pub Reach-IsBalanced : {s : Disks} → Reach g s → IsBalanced g s
  unfolding announced discontinued offered count
  Reach-IsBalanced start = record {
    size = refl;
    once = λ p live. ground arith;
    balance = λ P. refl;
  }
  Reach-IsBalanced (next r step) = Step-IsBalanced step (Reach-IsBalanced r)
