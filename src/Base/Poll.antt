-- ===== src/Base/Poll.antt =====
-- Loops that read a status bit until it is set, without a bound in the source: they take fuel, and
-- their result is the list of the reads.
use genode_imx.Base.Tests.{if◌then◌else◌, Bool-cases}
use genode_imx.Base.Lists.{replicate}
use Prim.Native.Nat.{ℕ, zero, suc, ◌+◌}
use mathlib.Core.Path.{◌≡◌, refl, ap, subst, ◌∙◌}
use mathlib.Core.Logic.{inl, inr}
use mathlib.Core.Bool.{Bool, true, false}
use mathlib.Core.Option.{Option, none, some}
use mathlib.Core.List.{List, [], ◌∷◌, ◌++◌}
use native.Mathlib.Omega.{arith}

module _ {A : Type 0} (read : Bool → A) (ready : ℕ → Bool) where
  -- `none` says that the bit is not set at the last of `fuel` reads.
  unfoldable pub poll : (fuel count : ℕ) → Option (List A)
  poll zero count = none
  poll (suc fuel) count =
      let rest = poll fuel (count + 1) in
      if ready count
      then some (read true ∷ [])
      else elim rest [ none ↦ none | some reads ↦ some (read false ∷ reads) ]

  poll-suc :
      (fuel count : ℕ) (reads : List A)
      → ready count ≡ false
      → poll fuel (count + 1) ≡ some reads
      → poll (suc fuel) count ≡ some (read false ∷ reads)
  unfolding poll
  poll-suc fuel count reads waits rest = rw (waits, rest) refl

  -- With as many reads as it takes until the bit is set, the loop ends.
  pub poll-returns :
      (n count : ℕ)
      → ready (count + n) ≡ true
      → (reads : List A) × (poll (suc n) count ≡ some reads)
  unfolding poll
  poll-returns zero count there =
      let e : count + 0 ≡ count = omega arith in
      let now : ready count ≡ true = subst (λ k. ready k ≡ true) e there in
      (read true ∷ [], rw now refl)
  poll-returns (suc n) count there = elim (Bool-cases (ready count)) [
    | inl now ↦ (read true ∷ [], rw now refl)
    | inr waits ↦
        let e : count + suc n ≡ count + 1 + n = omega arith in
        let later : ready (count + 1 + n) ≡ true = subst (λ k. ready k ≡ true) e there in
        let (reads, found) = poll-returns n (count + 1) later in
        (read false ∷ reads, poll-suc (suc n) count reads waits found)
  ]

  -- The reads of a loop that has ended: the bit was set at the last one only.
  pub poll-some :
      (fuel count : ℕ) (reads : List A)
      → poll fuel count ≡ some reads
      → (k : ℕ) × (reads ≡ replicate k (read false) ++ read true ∷ [])
  unfolding poll
  poll-some zero count reads e = absurd cc
  poll-some (suc fuel) count reads e =
      pick (ready count) (poll fuel (count + 1)) (poll-some fuel (count + 1)) e
    where
      pick :
          (b : Bool) (o : Option (List A))
          → ((r : List A) → o ≡ some r → (k : ℕ) × (r ≡ replicate k (read false) ++ read true ∷ []))
          → (if b
              then some (read true ∷ [])
              else elim o [ none ↦ none | some r ↦ some (read false ∷ r) ])
            ≡ some reads
          → (k : ℕ) × (reads ≡ replicate k (read false) ++ read true ∷ [])
      pick true o ih h = let same : reads ≡ read true ∷ [] = cc in (0, same)
      pick false none ih h = absurd cc
      pick false (some r) ih h =
          let (k, shape) = ih r refl in
          let same : reads ≡ read false ∷ r = cc in (suc k, same ∙ ap (λ l. read false ∷ l) shape)
