-- ===== src/Platform/Imx8mp/Table.antt =====
-- The rates of a `Frac_pll1416`.
use mathlib.Core.List.{Memᴰ}
use mathlib.Core.List.Memᴰ.{head, tail}
use genode_imx.Base.{
  ℕ, ◌*◌, ◌^◌, ◌≡◌, ◌==◌, Bool, false, List, [], ◌∷◌, map, refl, arith, inl, inr, Bool-cases, ◌%◌,
  subst, sym,
}
use genode_imx.Platform.Imx8mp.Pll14xx.{
  Pll14xx, Config, entry, no_config, pll1446_pre_calc_tbl, pre_calc, perform_all, set_rate_1416,
  rate_1416, rate_of_config, config_eq,
}
use genode_imx.Platform.Imx8mp.Safety.{changed_1416}

-- The rates that the table lists.
abbrev pub rates : List ℕ
rates = map (λ (elem : Config). elem.rate) pll1446_pre_calc_tbl

pre_calc-unlisted :
    (rate : ℕ) (table : List Config) (cfg : Config)
    → ¬ Memᴰ rate (map (λ (elem : Config). elem.rate) table)
    → pre_calc rate table cfg ≡ cfg
unfolding pre_calc
pre_calc-unlisted rate [] cfg absent = refl
pre_calc-unlisted rate (elem ∷ rest) cfg absent = elim (Bool-cases (rate == elem.rate)) [
  | inl hit ↦ let same : elem.rate ≡ rate = ground arith in absurd (absent (head (sym same)))
  | inr miss ↦ rw miss (pre_calc-unlisted rate rest cfg (λ m. absent (tail m)))
]

-- What a listed rate does.
abbrev Works : (lock : ℕ → Bool) (p : Pll14xx) → ℕ → Type 0
Works lock p rate =
    let q = perform_all (set_rate_1416 lock rate) p in
    (rate_1416 q ≡ rate) × (24000000 * q.main_div ≡ rate * q.pre_div * 2 ^ q.post_div)

-- A predicate that holds of all elements.
abbrev All : (P : ℕ → Type 0) → List ℕ → Type 0
All P [] = Unit {0}
All P (x ∷ xs) = P x × All P xs

All-Memᴰ : (P : ℕ → Type 0) (xs : List ℕ) {x : ℕ} → All P xs → Memᴰ x xs → P x
All-Memᴰ P [] all m = elim m [ ]
All-Memᴰ P (x ∷ xs) (here, rest) (head e) = subst P (sym e) here
All-Memᴰ P (x ∷ xs) (here, rest) (tail m) = All-Memᴰ P xs rest m

Works-of_entry :
    (lock : ℕ → Bool) (p : Pll14xx) (rate v w x : ℕ)
    → pre_calc rate pll1446_pre_calc_tbl no_config ≡ entry rate v w x
    → (rate == 0) ≡ false
    → rate_1416 (record p {
      bypass = 0;
      reset = 1;
      post_div = x % 2 ^ 3;
      pre_div = v % 2 ^ 6;
      main_div = w % 2 ^ 10;
    })
      ≡ rate
    → 24000000 * (w % 2 ^ 10) ≡ rate * (v % 2 ^ 6) * 2 ^ (x % 2 ^ 3)
    → Works lock p rate
unfolding set_rate_1416
Works-of_entry lock p rate v w x found known same exact =
    rw (found, known, changed_1416 lock v w x p) (same, exact)

All-rates : (lock : ℕ → Bool) (p : Pll14xx) → All (Works lock p) rates
unfolding pre_calc rate_1416 rate_of_config config_eq
All-rates lock p =
    let works = Works-of_entry lock p in
    (
      works 1800000000 3 225 0 refl refl refl refl,
      (
        works 1600000000 3 200 0 refl refl refl refl,
        (
          works 1500000000 3 375 1 refl refl refl refl,
          (
            works 1400000000 3 350 1 refl refl refl refl,
            (
              works 1200000000 2 200 1 refl refl refl refl,
              (
                works 1200000000 2 200 1 refl refl refl refl,
                (
                  works 1000000000 3 250 1 refl refl refl refl,
                  (
                    works 800000000 3 400 2 refl refl refl refl,
                    (
                      works 800000000 3 400 2 refl refl refl refl,
                      (
                        works 750000000 2 250 2 refl refl refl refl,
                        (
                          works 700000000 3 350 2 refl refl refl refl,
                          (works 600000000 3 300 2 refl refl refl refl, tt),
                        ),
                      ),
                    ),
                  ),
                ),
              ),
            ),
          ),
        ),
      ),
    )

module _ (lock : ℕ → Bool) (p : Pll14xx) where
  -- Setting a rate of the table makes the divisors give it behind the 24 MHz oscillator, and it is
  -- the rate that is read then; setting any other rate accesses no register.
  pub rate_1416-set_rate_1416 :
      (rate : ℕ)
      → (Memᴰ rate rates → Works lock p rate) × (¬ Memᴰ rate rates → set_rate_1416 lock rate ≡ [])
  unfolding set_rate_1416
  rate_1416-set_rate_1416 rate = (
    All-Memᴰ (Works lock p) rates (All-rates lock p),
    λ absent. rw (pre_calc-unlisted rate pll1446_pre_calc_tbl no_config absent) refl,
  )
