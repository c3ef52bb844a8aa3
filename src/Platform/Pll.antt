-- ===== src/Platform/Pll.antt =====
-- The search for the factor and the quotient of a `Sccg_pll`.
use genode_imx.Base.{
  ℕ, zero, suc, ◌+◌, ◌-◌, ◌*◌, ◌%◌, ◌^◌, ◌≡◌, ◌≢◌, ◌≤◌, ◌<◌, Bool, true, false, ◌==◌, if◌then◌else◌,
  Option, none, some, refl, sym, ap, ◌∙◌, arith, inl, inr, Bool-cases, Option-cases,
}
use genode_imx.Platform.Ccm.{
  SccgPll, sccg_candidate, find_factor, find_quotient, find_sccg_pll_values, sccg_set_rate,
  sccg_rate,
}

module _ (parent_rate rate : ℕ) where
  -- A factor and a quotient give the rate.
  abbrev pub Gives : (f q : ℕ) → Type 0
  Gives f q = rate ≡ sccg_candidate parent_rate f q

  abbrev InRange : (f n : ℕ) → ℕ → Type 0
  InRange f n g = (f ≤ g) × (g < f + n)

  factor-some :
      (n f q g r : ℕ)
      → find_factor n f q parent_rate rate ≡ some (g, r)
      → InRange f n g × (r ≡ q) × Gives g q
  unfolding find_factor
  factor-some zero f q g r e = absurd cc
  factor-some (suc n) f q g r e =
      pick (rate == sccg_candidate parent_rate f q) refl e (factor-some n (f + 1) q g r)
    where
      pick :
          (b : Bool)
          → (rate == sccg_candidate parent_rate f q) ≡ b
          → (if b then some (f, q) else find_factor n (f + 1) q parent_rate rate) ≡ some (g, r)
          → (find_factor n (f + 1) q parent_rate rate ≡ some (g, r)
              → InRange (f + 1) n g × (r ≡ q) × Gives g q)
          → InRange f (suc n) g × (r ≡ q) × Gives g q
      pick true hit e' rest =
          let same : f ≡ g = cc in
          let same' : q ≡ r = cc in ((omega arith, omega arith), sym same', ground arith)
      pick false miss e' rest =
          let ((low, high), same, gives) = rest e' in ((omega arith, omega arith), same, gives)

  factor-finds :
      (n f q g : ℕ)
      → InRange f n g
      → Gives g q
      → (h : ℕ) × (find_factor n f q parent_rate rate ≡ some (h, q))
  unfolding find_factor
  factor-finds zero f q g (low, high) gives = absurd (omega arith)
  factor-finds (suc n) f q g (low, high) gives =
      elim (Bool-cases (rate == sccg_candidate parent_rate f q)) [
        | inl hit ↦ (f, rw hit refl)
        | inr miss ↦
            let other : g ≢ f = λ same.
              let here : rate ≡ sccg_candidate parent_rate f q =
                gives ∙ ap (λ h. sccg_candidate parent_rate h q) same in
              ground arith in
            let (h, found) = factor-finds n (f + 1) q g (omega arith, omega arith) gives in
            (h, rw miss found)
      ]

  quotient-some :
      (n q g r : ℕ)
      → find_quotient n q parent_rate rate ≡ some (g, r)
      → InRange 1 64 g × InRange q n r × Gives g r
  unfolding find_quotient
  quotient-some zero q g r e = absurd cc
  quotient-some (suc n) q g r e =
      pick (find_factor 64 1 q parent_rate rate) (factor-some 64 1 q g r) e
        (quotient-some n (q + 1) g r)
    where
      pick :
          (o : Option (ℕ × ℕ))
          → (o ≡ some (g, r) → InRange 1 64 g × (r ≡ q) × Gives g q)
          → elim o [ none ↦ find_quotient n (q + 1) parent_rate rate | some p ↦ some p ]
            ≡ some (g, r)
          → (find_quotient n (q + 1) parent_rate rate ≡ some (g, r)
              → InRange 1 64 g × InRange (q + 1) n r × Gives g r)
          → InRange 1 64 g × InRange q (suc n) r × Gives g r
      pick none inner e' rest =
          let (f, (low, high), gives) = rest e' in (f, (omega arith, omega arith), gives)
      pick (some p) inner e' rest =
          let (f, same, gives) = inner e' in
          (
            f,
            (omega arith, omega arith),
            gives ∙ ap (λ k. sccg_candidate parent_rate g k) (sym same),
          )

  quotient-finds :
      (n q g r : ℕ)
      → InRange 1 64 g
      → InRange q n r
      → Gives g r
      → (p : ℕ × ℕ) × (find_quotient n q parent_rate rate ≡ some p)
  unfolding find_quotient
  quotient-finds zero q g r f (low, high) gives = absurd (omega arith)
  quotient-finds (suc n) q g r f (low, high) gives =
      elim (Option-cases (find_factor 64 1 q parent_rate rate)) [
        | inl missing ↦
            let other : r ≢ q = λ same.
              let (h, found) =
                factor-finds 64 1 q g f (gives ∙ ap (λ k. sccg_candidate parent_rate g k) same) in
              absurd cc in
            let (p, found) = quotient-finds n (q + 1) g r f (omega arith, omega arith) gives in
            (p, rw (find_quotient, missing) found)
        | inr (p, found) ↦ (p, rw (find_quotient, found) refl)
      ]

  -- The rate that is read after a factor and a quotient were written.
  sccg_rate-written :
      (g r : ℕ) (c : SccgPll)
      → InRange 1 64 g
      → InRange 1 64 r
      → Gives g r
      → sccg_rate parent_rate (record c {
        bypass2 = false;
        bypass1 = true;
        feedback_divf2 = (g - 1) % 2 ^ 6;
        ref_divr2 = (r - 1) % 2 ^ 6;
        output_div_val = 0;
      })
        ≡ rate
  unfolding sccg_rate sccg_candidate
  sccg_rate-written g r c (low, high) (low', high') gives =
      let e : (g - 1) % 2 ^ 6 + 1 ≡ g = omega arith in
      let e' : (((r - 1) % 2 ^ 6 + 1) * (0 + 1)) % 2 ^ 32 ≡ r = omega arith in
      rw (e, e') (sym gives)

  set_rate-same :
      (c : SccgPll)
      → rate ≡ parent_rate
      → sccg_rate parent_rate (sccg_set_rate parent_rate rate c) ≡ rate
  unfolding sccg_set_rate sccg_rate
  set_rate-same c same = let hit : (rate == parent_rate) ≡ true = ground arith in rw hit (sym same)

  -- If some factor and some quotient from 1 to 64 make the wanted rate of that of the parent, or
  -- if the two are equal, the rate that is read after it was set is the wanted one; if not, setting
  -- it changes nothing.
  pub sccg_rate-sccg_set_rate :
      (c : SccgPll)
      → ((g r : ℕ)
          → InRange 1 64 g
          → InRange 1 64 r
          → Gives g r
          → sccg_rate parent_rate (sccg_set_rate parent_rate rate c) ≡ rate)
        × (rate ≡ parent_rate → sccg_rate parent_rate (sccg_set_rate parent_rate rate c) ≡ rate)
        × (rate ≢ parent_rate
            → ((g r : ℕ) → InRange 1 64 g → InRange 1 64 r → Gives g r → ⊥)
            → sccg_set_rate parent_rate rate c ≡ c)
  unfolding sccg_set_rate find_sccg_pll_values
  sccg_rate-sccg_set_rate c = (
    λ g r f q gives. elim (Bool-cases (rate == parent_rate)) [
      | inl hit ↦ let same : rate ≡ parent_rate = ground arith in set_rate-same c same
      | inr differs ↦
          let ((h, k), found) = quotient-finds 64 1 g r f q gives in
          let (f', q', gives') = quotient-some 64 1 h k found in
          rw (differs, found) (sccg_rate-written h k c f' q' gives')
    ],
    set_rate-same c,
    λ differs never.
        let miss : (rate == parent_rate) ≡ false = ground arith in
        elim (Option-cases (find_quotient 64 1 parent_rate rate)) [
          | inl missing ↦ rw (miss, missing) refl
          | inr ((h, k), found) ↦
              let (f, q, gives) = quotient-some 64 1 h k found in absurd (never h k f q gives)
        ],
  )
