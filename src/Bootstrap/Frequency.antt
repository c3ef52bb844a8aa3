-- ===== src/Bootstrap/Frequency.antt =====
-- Raising the frequency of the CPU: both boards do the same, and in a safe order.
use genode_imx.Base.{
  ℕ, zero, suc, ◌+◌, ◌/◌, ◌%◌, ◌^◌, ◌≡◌, Bool, true, false, not, ◌==◌, ◌&&◌, ◌||◌, Option, none,
  some, List, [], ◌∷◌, ◌++◌, refl, inl, inr, arith, subst, Option-cases,
}
use genode_imx.Base.{replicate, sym}
use genode_imx.Base.Poll.{poll-some, poll-returns}
use genode_imx.Bootstrap.Setup.{
  Access, write_target_root_0, write_pll_arm_0, write_pll_arm_1, read_newdiv_ack, clear_low_bits,
  set_bit, toggle_bit, write_field, wait_ack, imx8q_evk_frequency, mnt_reform2_frequency,
}

low-bits : (v : ℕ) → write_field 0 5 0 v ≡ clear_low_bits v
low-bits v = omega arith

set-bit : (v : ℕ) → write_field 12 1 1 v ≡ set_bit 12 v
set-bit v = ground arith

-- The acknowledgement's bit, below the one that starts, leaves the latter as it is.
toggle-bit :
    (v : ℕ)
    → write_field 12 1 0 (set_bit 11 (set_bit 12 v)) ≡ toggle_bit 12 (set_bit 11 (set_bit 12 v))
toggle-bit v = ground arith

-- If the root clock is enabled, and has no divisors, both boards make the same writes and the same
-- reads of the PLL's acknowledgement, in the same order.
pub imx8q_evk-mnt_reform2 :
    (fuel : ℕ) (ack : ℕ → Bool) (target_root_0 pll_arm_0 : ℕ)
    → write_field 24 3 0 target_root_0 ≡ 0x10000000
    → imx8q_evk_frequency fuel ack pll_arm_0
      ≡ mnt_reform2_frequency fuel ack target_root_0 pll_arm_0
unfolding imx8q_evk_frequency mnt_reform2_frequency
imx8q_evk-mnt_reform2 fuel ack target_root_0 pll_arm_0 enabled =
    let parked : write_field 24 3 4 target_root_0 ≡ 0x14000000 = omega arith in
    let back : write_field 24 3 1 0x14000000 ≡ 0x11000000 = refl in
    elim (Option-cases (wait_ack fuel ack)) [
      | inl missing ↦ rw (imx8q_evk_frequency, mnt_reform2_frequency, missing) refl
      | inr (reads, found) ↦
          rw
            (
              imx8q_evk_frequency,
              mnt_reform2_frequency,
              found,
              parked,
              back,
              low-bits pll_arm_0,
              set-bit (clear_low_bits pll_arm_0),
              toggle-bit (clear_low_bits pll_arm_0),
            )
            refl
    ]

-- What was seen: the source of the clock, and whether the PLL has acknowledged its new divisors.
pub record Seen : Type 0 where
  pub source : ℕ
  pub acknowledged : Bool

abbrev see : Seen → Access → Seen
see s (write_target_root_0 v) = record s { source = v / 2 ^ 24 % 2 ^ 3 }
see s (write_pll_arm_0 v) = s
see s (write_pll_arm_1 v) = record s { acknowledged = false }
see s (read_newdiv_ack b) = record s { acknowledged = b }

-- The PLL is written only while the clock comes from elsewhere, and becomes the clock's source, 1,
-- only after it has acknowledged.
abbrev allowed : Seen → Access → Bool
allowed s (write_target_root_0 v) = not (v / 2 ^ 24 % 2 ^ 3 == 1) || s.acknowledged
allowed s (write_pll_arm_0 v) = not (s.source == 1)
allowed s (write_pll_arm_1 v) = not (s.source == 1)
allowed s (read_newdiv_ack b) = true

abbrev pub all_allowed : Seen → List Access → Bool
all_allowed s [] = true
all_allowed s (a ∷ rest) = allowed s a && all_allowed (see s a) rest

abbrev pub see_all : Seen → List Access → Seen
see_all s [] = s
see_all s (a ∷ rest) = see_all (see s a) rest

-- After reads of which the last one shows it, the PLL has acknowledged.
reads_lem :
    (k : ℕ) (rest : List Access) (s : Seen)
    → let reads = replicate k (read_newdiv_ack false) ++ read_newdiv_ack true ∷ [] in
      (all_allowed s (reads ++ rest) ≡ all_allowed (record s { acknowledged = true }) rest)
      × (see_all s (reads ++ rest) ≡ see_all (record s { acknowledged = true }) rest)
reads_lem zero rest s = (refl, refl)
reads_lem (suc k) rest s = reads_lem k rest (record s { acknowledged = false })

wait_ack-some :
    (fuel : ℕ) (ack : ℕ → Bool) (reads rest : List Access) (s : Seen)
    → wait_ack fuel ack ≡ some reads
    → (all_allowed s (reads ++ rest) ≡ all_allowed (record s { acknowledged = true }) rest)
      × (see_all s (reads ++ rest) ≡ see_all (record s { acknowledged = true }) rest)
unfolding wait_ack
wait_ack-some fuel ack reads rest s e =
    let (k, shape) = poll-some read_newdiv_ack ack fuel 0 reads e in
    subst
      (λ l.
        (all_allowed s (l ++ rest) ≡ all_allowed (record s { acknowledged = true }) rest)
        × (see_all s (l ++ rest) ≡ see_all (record s { acknowledged = true }) rest))
      (sym shape) (reads_lem k rest s)

imx8q_evk_frequency-IsSafe :
    (fuel : ℕ) (ack : ℕ → Bool) (pll_arm_0 : ℕ) (accesses : List Access) (s : Seen)
    → imx8q_evk_frequency fuel ack pll_arm_0 ≡ some accesses
    → (all_allowed s accesses ≡ true)
      × (see_all s accesses ≡ record { source = 1; acknowledged = true })
unfolding imx8q_evk_frequency
imx8q_evk_frequency-IsSafe fuel ack pll_arm_0 accesses s e =
    pick (wait_ack fuel ack) (λ reads. wait_ack-some fuel ack reads back parked) e
  where
    started : ℕ
    started = set_bit 12 (clear_low_bits pll_arm_0)

    back : List Access
    back =
        write_pll_arm_0 (toggle_bit 12 (set_bit 11 started)) ∷ write_target_root_0 0x11000000 ∷ []

    parked : Seen
    parked = record { source = 4; acknowledged = false }

    pick :
        (o : Option (List Access))
        → ((reads : List Access)
            → o ≡ some reads
            → (all_allowed parked (reads ++ back)
                ≡ all_allowed (record parked { acknowledged = true }) back)
              × (see_all parked (reads ++ back)
                  ≡ see_all (record parked { acknowledged = true }) back))
        → elim o [
          | none ↦ none
          | some reads ↦ some (
              write_target_root_0 0x14000000
              ∷ write_pll_arm_1 0x4a
              ∷ write_pll_arm_0 (clear_low_bits pll_arm_0)
              ∷ write_pll_arm_0 started
              ∷ (reads ++ back))
        ]
          ≡ some accesses
        → (all_allowed s accesses ≡ true)
          × (see_all s accesses ≡ record { source = 1; acknowledged = true })
    pick none after h = absurd cc
    pick (some reads) after h =
        let (order, seen) = after reads refl in
        let same : write_target_root_0 0x14000000
              ∷ write_pll_arm_1 0x4a
              ∷ write_pll_arm_0 (clear_low_bits pll_arm_0)
              ∷ write_pll_arm_0 started
              ∷ (reads ++ back)
            ≡ accesses =
          cc in
        subst
          (λ l.
            (all_allowed s l ≡ true) × (see_all s l ≡ record { source = 1; acknowledged = true }))
          same (order, seen)

wait_ack-returns :
    (n : ℕ) (ack : ℕ → Bool)
    → ack n ≡ true
    → (reads : List Access) × (wait_ack (suc n) ack ≡ some reads)
unfolding wait_ack
wait_ack-returns n ack there =
    let e : n ≡ 0 + n = omega arith in
    poll-returns read_newdiv_ack ack n 0 (subst (λ k. ack k ≡ true) e there)

frequency-returns :
    (n : ℕ) (ack : ℕ → Bool) (pll_arm_0 : ℕ) (reads : List Access)
    → wait_ack n ack ≡ some reads
    → (accesses : List Access) × (imx8q_evk_frequency n ack pll_arm_0 ≡ some accesses)
unfolding imx8q_evk_frequency
frequency-returns n ack pll_arm_0 reads found = pick (wait_ack n ack) found
  where
    started : ℕ
    started = set_bit 12 (clear_low_bits pll_arm_0)

    pick :
        (o : Option (List Access))
        → o ≡ some reads
        → (accesses : List Access) × (elim o [
          | none ↦ none
          | some r ↦ some (
              write_target_root_0 0x14000000
              ∷ write_pll_arm_1 0x4a
              ∷ write_pll_arm_0 (clear_low_bits pll_arm_0)
              ∷ write_pll_arm_0 started
              ∷ (r
                  ++ write_pll_arm_0 (toggle_bit 12 (set_bit 11 started))
                    ∷ write_target_root_0 0x11000000
                    ∷ []))
        ]
            ≡ some accesses)
    pick none h = absurd cc
    pick (some r) h = (_, refl)

-- If the PLL acknowledges its new divisors, the constructor of imx8q_evk returns, at the latest
-- after as many reads as that takes. It writes the PLL only while the CPU runs from another clock,
-- and switches back to it, at the end, only after the acknowledgement, whatever the clock was.
pub imx8q_evk_frequency_lem :
    (n : ℕ) (ack : ℕ → Bool) (pll_arm_0 : ℕ) (s : Seen)
    → ack n ≡ true
    → (accesses : List Access) × (imx8q_evk_frequency (suc n) ack pll_arm_0 ≡ some accesses)
      × (all_allowed s accesses ≡ true)
      × (see_all s accesses ≡ record { source = 1; acknowledged = true })
imx8q_evk_frequency_lem n ack pll_arm_0 s there =
    let (reads, found) = wait_ack-returns n ack there in
    let (accesses, same) = frequency-returns (suc n) ack pll_arm_0 reads found in
    let (order, seen) = imx8q_evk_frequency-IsSafe (suc n) ack pll_arm_0 accesses s same in
    (accesses, same, order, seen)
