-- ===== src/Platform/Imx8mp/Safety.antt =====
-- What the accesses of the two PLLs have in common, and when they change the pre-divider and the
-- main divider.
use genode_imx.Base.{
  ℕ, zero, suc, ◌+◌, ◌≡◌, ◌≤◌, Bool, List, [], ◌∷◌, ◌++◌, refl, arith, inl, inr, Bool-cases, length,
  ◌%◌, ◌^◌, ◌⊎◌, length-append,
}
use genode_imx.Platform.Imx8mp.Pll14xx.{
  Pll14xx, Access, write_reset, write_bypass, write_pre_div, write_main_div, write_post_div,
  write_dsm, perform, perform_all, wait_lock,
}

-- An access may be made now: the pre-divider and the main divider are changed only while the PLL is
-- in reset and by-passed. The post-divider and the fraction may be changed at any time, as the short
-- path of the PLL1443 does.
abbrev Allowed : Pll14xx → Access → Type 0
Allowed p (write_pre_div v) = (p.reset ≡ 0) × (p.bypass ≡ 1)
Allowed p (write_main_div v) = (p.reset ≡ 0) × (p.bypass ≡ 1)
Allowed p a = Unit {0}

-- Each access of a sequence may be made when it is made.
abbrev pub AllAllowed : Pll14xx → List Access → Type 0
AllAllowed p [] = Unit {0}
AllAllowed p (a ∷ rest) = Allowed p a × AllAllowed (perform a p) rest

-- Waiting changes no field and makes at most `left + 1` reads.
pub wait_lock_lem :
    (left count : ℕ) (lock : ℕ → Bool) (p : Pll14xx) (rest : List Access)
    → AllAllowed p rest
    → AllAllowed p (wait_lock left count lock ++ rest)
      × (perform_all (wait_lock left count lock ++ rest) p ≡ perform_all rest p)
      × (length (wait_lock left count lock) ≤ left + 1)
unfolding wait_lock perform perform_all
wait_lock_lem zero count lock p rest h = ((tt, h), refl, omega arith)
wait_lock_lem (suc left) count lock p rest h = elim (Bool-cases (lock count)) [
  | inl locked ↦ rw locked ((tt, h), refl, omega arith)
  | inr waits ↦
      let (allowed, same, few) = wait_lock_lem left (count + 1) lock p rest h in
      rw waits ((tt, allowed), same, omega arith)
]

-- What a setting may leave behind: those two dividers as they were, or a PLL out of reset and not
-- by-passed.
abbrev pub Settled : Pll14xx → Pll14xx → Type 0
Settled p q =
    ((q.pre_div ≡ p.pre_div)
      × (q.main_div ≡ p.main_div)
      × (q.reset ≡ p.reset)
      × (q.bypass ≡ p.bypass))
    ⊎ ((q.reset ≡ 1) × (q.bypass ≡ 0))

-- A sequence of accesses that keeps to the rules and ends.
abbrev pub IsSafe : List Access → Type 0
IsSafe accesses =
    (p : Pll14xx)
    → AllAllowed p accesses × Settled p (perform_all accesses p) × (length accesses ≤ 1033)

-- Waiting for the lock, then no by-pass any more.
abbrev waits : (lock : ℕ → Bool) → List Access
waits lock = wait_lock 1024 0 lock ++ write_bypass 0 ∷ []

waits_lem :
    (lock : ℕ → Bool) (p : Pll14xx)
    → AllAllowed p (waits lock)
      × (perform_all (waits lock) p ≡ record p { bypass = 0 })
      × (length (waits lock) ≤ 1026)
unfolding perform perform_all
waits_lem lock p =
    let (allowed, same, few) = wait_lock_lem 1024 0 lock p (write_bypass 0 ∷ []) (tt, tt) in
    (allowed, same, omega (arith, few, length-append (wait_lock 1024 0 lock) (write_bypass 0 ∷ [])))

-- The registers after the dividers were changed in reset.
pub changed_1443 :
    (lock : ℕ → Bool) (v w x y : ℕ) (p : Pll14xx)
    → perform_all
        (write_reset 0
          ∷ write_bypass 1
          ∷ write_pre_div v
          ∷ write_main_div w
          ∷ write_post_div x
          ∷ write_dsm y
          ∷ write_reset 1
          ∷ waits lock)
        p
      ≡ record p {
        bypass = 0;
        reset = 1;
        post_div = x % 2 ^ 3;
        pre_div = v % 2 ^ 6;
        main_div = w % 2 ^ 10;
        dsm = y % 2 ^ 16;
      }
unfolding perform perform_all
changed_1443 lock v w x y p = (waits_lem lock _).1

pub changed_1416 :
    (lock : ℕ → Bool) (v w x : ℕ) (p : Pll14xx)
    → perform_all
        (write_reset 0
          ∷ write_bypass 1
          ∷ write_pre_div v
          ∷ write_main_div w
          ∷ write_post_div x
          ∷ write_reset 1
          ∷ waits lock)
        p
      ≡ record p {
        bypass = 0;
        reset = 1;
        post_div = x % 2 ^ 3;
        pre_div = v % 2 ^ 6;
        main_div = w % 2 ^ 10;
      }
unfolding perform perform_all
changed_1416 lock v w x p = (waits_lem lock _).1
