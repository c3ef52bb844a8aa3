-- ===== src/Ipu/Order.antt =====
-- The order of the accesses of `init` of src/drivers/framebuffer/imx53/ipu.h, and when it ends.
use genode_imx.Base.{
  ℕ, zero, suc, ◌+◌, ◌≡◌, Bool, true, false, not, ◌&&◌, ◌||◌, ◌==◌, if◌then◌else◌, Option, none,
  some, subst, List, [], ◌∷◌, ◌++◌, update, refl, ◌∙◌, arith,
}
use genode_imx.Base.{replicate, ap, sym}
use genode_imx.Base.Poll.{poll, poll-some, poll-returns}
use genode_imx.Ipu.Descriptor.{descriptor, init_dma_channel}
use genode_imx.Ipu.Registers.{
  Access, write, store, enable, read_mem_rst, mem_rst, conf, chan_dp_primary_main,
  chan_dp_primary_auxi,
}
use genode_imx.Ipu.Displays.{init_di0, init_di1}
use genode_imx.Ipu.Init.{wait_mem_rst, stop_and_reset, init_common, init_overlay, init}

-- What was seen so far: the reset of all memories was asked for, and is over after it, when a
-- read shows so.
pub record Seen : Type 0 where
  pub reset_asked : Bool
  pub reset_over : Bool
  pub stored : ℕ → Bool
  pub enabled : ℕ → Bool

abbrev pub nothing : Seen
nothing = record {
  reset_asked = false;
  reset_over = false;
  stored = λ c. false;
  enabled = λ c. false;
}

abbrev asked_for : Seen
asked_for = record nothing { reset_asked = true }

abbrev see : Seen → Access → Seen
see s (write mem_rst v) = record s { reset_asked = v == 0x807fffff; reset_over = false }
see s (write r v) = s
see s (store c words) = record s { stored = update s.stored c true }
see s (enable c v) = record s { enabled = update s.enabled c (not (v == 0)) }
see s (read_mem_rst busy) = record s { reset_over = s.reset_asked && not busy }

-- An access may be made: a descriptor is stored after the reset of the memory and before its
-- channel is enabled, a channel is enabled after its descriptor is stored, and the parts of the
-- unit are switched on after the descriptors of both channels are.
abbrev allowed : Seen → Access → Bool
allowed s (write conf v) =
    v == 0 || (s.stored chan_dp_primary_main && s.stored chan_dp_primary_auxi)
allowed s (write r v) = true
allowed s (store c words) = s.reset_over && not (s.enabled c)
allowed s (enable c v) = s.stored c
allowed s (read_mem_rst busy) = true

abbrev pub all_allowed : Seen → List Access → Bool
all_allowed s [] = true
all_allowed s (a ∷ rest) = allowed s a && all_allowed (see s a) rest

abbrev pub see_all : Seen → List Access → Seen
see_all s [] = s
see_all s (a ∷ rest) = see_all (see s a) rest

-- After reads of which the last one shows the end, the reset is over.
reads_lem :
    (k : ℕ) (rest : List Access) (over : Bool) (stored enabled : ℕ → Bool)
    → let s : Seen = record {
      reset_asked = true;
      reset_over = over;
      stored = stored;
      enabled = enabled;
    } in
      let reads = replicate k (read_mem_rst true) ++ read_mem_rst false ∷ [] in
      (all_allowed s (reads ++ rest) ≡ all_allowed (record s { reset_over = true }) rest)
      × (see_all s (reads ++ rest) ≡ see_all (record s { reset_over = true }) rest)
reads_lem zero rest over stored enabled = (refl, refl)
reads_lem (suc k) rest over stored enabled = reads_lem k rest false stored enabled

wait_mem_rst-some :
    (fuel : ℕ) (busy : ℕ → Bool) (reads rest : List Access)
    → wait_mem_rst fuel busy ≡ some reads
    → (all_allowed asked_for (reads ++ rest)
        ≡ all_allowed (record asked_for { reset_over = true }) rest)
      × (see_all asked_for (reads ++ rest) ≡ see_all (record asked_for { reset_over = true }) rest)
unfolding wait_mem_rst
wait_mem_rst-some fuel busy reads rest e =
    let (k, shape) =
      poll-some (λ over. read_mem_rst (not over)) (λ n. not (busy n)) fuel 0 reads e in
    subst
      (λ l.
        (all_allowed asked_for (l ++ rest)
          ≡ all_allowed (record asked_for { reset_over = true }) rest)
        × (see_all asked_for (l ++ rest) ≡ see_all (record asked_for { reset_over = true }) rest))
      (sym shape) (reads_lem k rest false (λ c. false) (λ c. false))

-- The loop ends at the latest where the reset is over.
wait_mem_rst-returns :
    (n : ℕ) (busy : ℕ → Bool)
    → busy n ≡ false
    → (reads : List Access) × (wait_mem_rst (n + 1) busy ≡ some reads)
unfolding wait_mem_rst
wait_mem_rst-returns n busy over =
    let e : n ≡ 0 + n = omega arith in
    let e' : suc n ≡ n + 1 = omega arith in
    let there : not (busy (0 + n)) ≡ true = subst (λ k. not (busy k) ≡ true) e (ap not over) in
    let (reads, found) =
      poll-returns (λ over. read_mem_rst (not over)) (λ n. not (busy n)) n 0 there in
    (
      reads,
      subst (λ k. poll (λ over. read_mem_rst (not over)) (λ n. not (busy n)) k 0 ≡ some reads) e'
          found,
    )

module _ (width height stride phys_base : ℕ) (di0 : Bool) where
  -- The descriptor that `init` stores.
  abbrev pub stored_descriptor : List ℕ
  stored_descriptor = descriptor (init_dma_channel width height stride phys_base)

  -- What follows the loop.
  abbrev rest_of_init : List Access
  rest_of_init =
      init_common
      ++ ((if di0 then init_di0 stored_descriptor else init_di1 stored_descriptor) ++ init_overlay)

  -- A sequence keeps to the order, and both channels of the display are enabled at its end.
  abbrev pub KeepsOrder : Seen → List Access → Type 0
  KeepsOrder s l =
      (all_allowed s l ≡ true)
      × ((see_all s l).enabled chan_dp_primary_main ≡ true)
      × ((see_all s l).enabled chan_dp_primary_auxi ≡ true)

  rest_of_init-KeepsOrder : KeepsOrder (record asked_for { reset_over = true }) rest_of_init
  unfolding init_common init_di0 init_di1 init_overlay
  rest_of_init-KeepsOrder =
      elim di0
        as (λ d.
          KeepsOrder (record asked_for { reset_over = true })
            (init_common
              ++ ((if d then init_di0 stored_descriptor else init_di1 stored_descriptor)
                  ++ init_overlay))) [ true ↦ (refl, refl, refl) | false ↦ (refl, refl, refl) ]

  -- The order is kept wherever the code returns.
  init-KeepsOrder :
      (fuel : ℕ) (busy : ℕ → Bool) (accesses : List Access)
      → init fuel busy width height stride phys_base di0 ≡ some accesses
      → KeepsOrder nothing accesses
  unfolding init stop_and_reset
  init-KeepsOrder fuel busy accesses e =
      pick (wait_mem_rst fuel busy) (λ reads. wait_mem_rst-some fuel busy reads rest_of_init) e
    where
      pick :
          (o : Option (List Access))
          → ((reads : List Access)
              → o ≡ some reads
              → (all_allowed asked_for (reads ++ rest_of_init)
                  ≡ all_allowed (record asked_for { reset_over = true }) rest_of_init)
                × (see_all asked_for (reads ++ rest_of_init)
                    ≡ see_all (record asked_for { reset_over = true }) rest_of_init))
          → elim o [ none ↦ none | some reads ↦ some (stop_and_reset ++ (reads ++ rest_of_init)) ]
            ≡ some accesses
          → KeepsOrder nothing accesses
      pick none after h = absurd cc
      pick (some reads) after h =
          let (order, seen) = after reads refl in
          let (kept, main, auxi) = rest_of_init-KeepsOrder in
          let same : stop_and_reset ++ (reads ++ rest_of_init) ≡ accesses = cc in
          subst (KeepsOrder nothing) same (order ∙ kept, rw seen main, rw seen auxi)

  init-returns :
      (fuel : ℕ) (busy : ℕ → Bool) (reads : List Access)
      → wait_mem_rst fuel busy ≡ some reads
      → init fuel busy width height stride phys_base di0
        ≡ some (stop_and_reset ++ (reads ++ rest_of_init))
  unfolding init
  init-returns fuel busy reads found = rw (init, found) refl

  -- If the reset of the memory ends, initialising returns, at the latest after as many reads as that
  -- takes. It stores a descriptor only after a reset of all memories was
  -- asked for and a later read shows its end, and while its channel is not enabled,
  -- enables a channel only after its descriptor is stored, switches the parts of the unit on only
  -- after both descriptors are, and ends with both channels enabled; for either display.
  pub init_lem :
      (busy : ℕ → Bool) (n : ℕ)
      → busy n ≡ false
      → (accesses : List Access) × (init (n + 1) busy width height stride phys_base di0
          ≡ some accesses)
        × KeepsOrder nothing accesses
  init_lem busy n over =
      let (reads, found) = wait_mem_rst-returns n busy over in
      let e = init-returns (n + 1) busy reads found in (_, e, init-KeepsOrder (n + 1) busy _ e)
