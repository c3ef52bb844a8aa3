-- ===== src/PciHost/Waits.antt =====
-- How the PCIe driver waits for its hardware.
use genode_imx.Base.{
  ℕ, zero, suc, ◌≡◌, ◌≢◌, ◌↔◌, ◌<◌, Bool, true, false, refl, sym, ◌∙◌, arith, inl, inr, Bool-cases,
}
use genode_imx.PciHost.Registers.{
  Hardware, Machine, do_writes, pause, poll_link, wait_for_link, poll_atu, wait_for_atu,
}
use genode_imx.PciHost.Controller.{
  Ending, done, link_is_not_ready, atu_is_not_ready, set_up, speed_up, construct_controller,
}

module _ {W : Type 0} (hw : Hardware W) where
  -- The hardware after `n` pauses of `ms` milliseconds.
  pub paused : (ms n : ℕ) → W → W
  paused ms zero w = w
  paused ms (suc n) w = paused ms n (hw.msleep ms w)

  -- The link is up at one of the next `n` looks, 100 milliseconds apart.
  abbrev pub UpWithin : ℕ → W → Type 0
  UpWithin n w = (k : ℕ) × (k < n) × (hw.link_up (paused 100 k w) ≡ true)

  earlier :
      (n : ℕ) (w : W) → hw.link_up w ≡ false → UpWithin (suc n) w → UpWithin n (hw.msleep 100 w)
  unfolding paused
  earlier n w down (zero, low, up) = absurd (ground arith)
  earlier n w down (suc k, low, up) = (k, omega arith, up)

  poll_link_lem :
      (n : ℕ) (m : Machine W)
      → ((poll_link hw n m).0 ≡ true → UpWithin n m.world)
        × (UpWithin n m.world → (poll_link hw n m).0 ≡ true)
  unfolding poll_link paused
  poll_link_lem zero m = (λ e. absurd (ground arith), λ (k, low, up). absurd (omega arith))
  poll_link_lem (suc n) m = elim (Bool-cases (hw.link_up m.world)) [
    | inl up ↦ rw up (λ _. (0, omega arith, up), λ _. refl)
    | inr down ↦
        let (only, all) = poll_link_lem n (pause hw 100 m) in
        rw down (
          λ e. let (k, low, up) = only e in (suc k, omega arith, up),
          λ within. all (earlier n m.world down within),
        )
  ]

  poll_atu_lem : (n : ℕ) (m : Machine W) → (poll_atu hw n m).0 ≡ true
  unfolding poll_atu
  poll_atu_lem zero m = refl
  poll_atu_lem (suc n) m = ground (arith, poll_atu_lem n (pause hw 10 m))

  wait_for_link_lem :
      (m : Machine W)
      → ((wait_for_link hw m).0 ≡ true → UpWithin 10 m.world)
        × (UpWithin 10 m.world → (wait_for_link hw m).0 ≡ true)
  unfolding wait_for_link
  wait_for_link_lem m = poll_link_lem 10 m

  wait_for_atu_lem : (m : Machine W) → (wait_for_atu hw m).0 ≡ true
  unfolding wait_for_atu
  wait_for_atu_lem m = poll_atu_lem 10 m

  -- The controller after its first writes, and after those that follow the first wait.
  abbrev pub started : (bus io_base : ℕ) → Machine W → Machine W
  started bus io_base m = do_writes hw (set_up bus io_base) m

  abbrev pub restarted : (bus io_base : ℕ) → Machine W → Machine W
  restarted bus io_base m = do_writes hw speed_up (wait_for_link hw (started bus io_base m)).1

  -- How the constructor ends, by how the two waits for the link end.
  abbrev ending_of : (first second : Bool) → Ending
  ending_of true true = done
  ending_of first second = link_is_not_ready

  construct_controller-ending_of :
      (bus io_base : ℕ) (m : Machine W)
      → (construct_controller hw bus io_base m).0
        ≡ ending_of
            (wait_for_link hw (started bus io_base m)).0
            (wait_for_link hw (restarted bus io_base m)).0
  unfolding construct_controller
  construct_controller-ending_of bus io_base m =
      elim (Bool-cases (wait_for_link hw (started bus io_base m)).0) [
        | inl up ↦ elim (Bool-cases (wait_for_link hw (restarted bus io_base m)).0) [
          | inl faster ↦ rw (up, faster, wait_for_atu_lem _) refl
          | inr slow ↦ rw (up, slow) refl
        ]
        | inr down ↦ rw down refl
      ]

  -- The constructor of a controller is done exactly if the link is up at one of ten looks, 100
  -- milliseconds apart, after it was started, and again after it was made faster; it never ends
  -- with the exception that the configuration window is not ready, whatever the hardware does.
  pub construct_controller_lem :
      (bus io_base : ℕ) (m : Machine W)
      → let ending = (construct_controller hw bus io_base m).0 in
        ((ending ≡ done) ↔ (
          UpWithin 10 (started bus io_base m).world × UpWithin 10 (restarted bus io_base m).world))
        × (ending ≢ atu_is_not_ready)
  construct_controller_lem bus io_base m =
      let (only1, all1) = wait_for_link_lem (started bus io_base m) in
      let (only2, all2) = wait_for_link_lem (restarted bus io_base m) in
      let e = construct_controller-ending_of bus io_base m in
      (
        (
          λ f. let (up, faster) = both _ _ (sym e ∙ f) in (only1 up, only2 faster),
          λ (w1, w2). e ∙ rw (all1 w1, all2 w2) refl,
        ),
        λ f. never _ _ (sym e ∙ f),
      )
    where
      both : (a b : Bool) → ending_of a b ≡ done → (a ≡ true) × (b ≡ true)
      both true true f = (refl, refl)
      both true false f = absurd cc
      both false b f = absurd cc

      never : (a b : Bool) → ending_of a b ≡ atu_is_not_ready → ⊥
      never true true f = absurd cc
      never true false f = absurd cc
      never false b f = absurd cc
