-- ===== src/Platform/Tree/Closed.antt =====
-- Trees whose clocks have parents that exist and are declared before them: every clock has a rate.
use Prim.Native.String.{String}
use text.Mathlib.Text.{◌==◌ as str_eq}
use genode_imx.Base.{
  ℕ, zero, suc, ◌≡◌, ◌<◌, Bool, true, false, ◌&&◌, ◌||◌, ◌==◌, Option, none, some, ◌⊎◌, inl, inr,
  Bool-cases, List, [], ◌∷◌, get_or, length, refl, arith,
}
use genode_imx.Platform.FracPll.{parent_name}
use genode_imx.Platform.Imx8mp.Pll14xx.{Pll14xx, ref_clk_name}
use genode_imx.Platform.Tree.Clocks.{
  Clock, fixed, frac_pll, sccg_pll, frac_pll1443, frac_pll1416, divider, root, root_divider, gate,
  name_of, Registers, divided_by, rate_of,
}

-- A tree has a clock with a name.
abbrev pub declares : List Clock → String → Bool
declares [] name = false
declares (c ∷ earlier) name = str_eq (name_of c) name || declares earlier name

abbrev all_declared : List Clock → List String → Bool
all_declared earlier [] = true
all_declared earlier (n ∷ names) = declares earlier n && all_declared earlier names

-- The parents that the field of a PLL of the imx8mq selects.
abbrev pll_parents : List String
pll_parents = parent_name 0 ∷ parent_name 1 ∷ parent_name 2 ∷ parent_name 3 ∷ []

-- The parents of a clock are among those that are declared before it, and a root clock has eight.
abbrev knows_parents : List Clock → Clock → Bool
knows_parents earlier (fixed n rate) = true
knows_parents earlier (frac_pll n nr) = all_declared earlier pll_parents
knows_parents earlier (sccg_pll n nr) = all_declared earlier pll_parents
knows_parents earlier (frac_pll1443 n pll) =
    declares earlier "24m_ref_clk" && declares earlier "no_clk"
knows_parents earlier (frac_pll1416 n pll) = true
knows_parents earlier (divider n parent value) = declares earlier parent
knows_parents earlier (root n nr refs) = length refs == 8 && all_declared earlier refs
knows_parents earlier (root_divider n nr parent) = declares earlier parent
knows_parents earlier (gate n nr parent) = declares earlier parent

abbrev pub is_closed : List Clock → Bool
is_closed [] = true
is_closed (c ∷ earlier) = knows_parents earlier c && is_closed earlier

declared_get_or :
    (earlier : List Clock) (refs : List String) (k : ℕ)
    → all_declared earlier refs ≡ true
    → k < length refs
    → declares earlier (get_or refs k "") ≡ true
declared_get_or earlier [] k all low = absurd (omega arith)
declared_get_or earlier (n ∷ names) zero all low = ground arith
declared_get_or earlier (n ∷ names) (suc k) all low =
    let rest : all_declared earlier names ≡ true = ground arith in
    declared_get_or earlier names k rest (omega arith)

pll14xx_parent_declared :
    (earlier : List Clock) (p : Pll14xx)
    → declares earlier "24m_ref_clk" ≡ true
    → declares earlier "no_clk" ≡ true
    → p.ref_clk_select < 2
    → declares earlier (ref_clk_name p) ≡ true
unfolding ref_clk_name
pll14xx_parent_declared earlier p ref no_clk low = elim (Bool-cases (p.ref_clk_select == 0)) [
  | inl first ↦ rw first ref
  | inr other ↦
      let second : (p.ref_clk_select == 1) ≡ true = ground arith in rw (other, second) no_clk
]

-- What the fields that select parents can hold: a root clock has eight parents, a PLL of the imx8mq
-- four, and the two that are written of the four of a PLL of the imx8mp.
pub record Selects (regs : Registers) : Type 0 where
  pub target : (n : String) → (regs.target n).ref_sel < 8
  pub frac : (n : String) → (regs.frac n).ref_sel < 4
  pub sccg : (n : String) → regs.sccg_ref_sel n < 4
  pub pll14xx : (n : String) → (regs.pll14xx n).ref_clk_select < 2

-- The name of the clock that a clock asks for its rate, if it asks one.
pub parent_of : Registers → Clock → Option String
parent_of regs (fixed n rate) = none
parent_of regs (frac_pll n nr) = some (parent_name (regs.frac n).ref_sel)
parent_of regs (sccg_pll n nr) = some (parent_name (regs.sccg_ref_sel n))
parent_of regs (frac_pll1443 n pll) = some (ref_clk_name (regs.pll14xx n))
parent_of regs (frac_pll1416 n pll) = none
parent_of regs (divider n parent value) = some parent
parent_of regs (root n nr refs) = some (get_or refs (regs.target n).ref_sel "")
parent_of regs (root_divider n nr parent) = some parent
parent_of regs (gate n nr parent) = some parent

-- From the clock with a name on, each parent that is asked is declared, up to a clock without one.
pub data IsRooted (regs : Registers) : List Clock → String → Type 0 where
  source :
      {c : Clock} {earlier : List Clock} {name : String}
      → str_eq (name_of c) name ≡ true
      → parent_of regs c ≡ none
      → IsRooted regs (c ∷ earlier) name
  asks :
      {c : Clock} {earlier : List Clock} {name parent : String}
      → str_eq (name_of c) name ≡ true
      → parent_of regs c ≡ some parent
      → IsRooted regs earlier parent
      → IsRooted regs (c ∷ earlier) name
  passes :
      {c : Clock} {earlier : List Clock} {name : String}
      → str_eq (name_of c) name ≡ false
      → IsRooted regs earlier name
      → IsRooted regs (c ∷ earlier) name

pll_parent_declared :
    (earlier : List Clock) (k : ℕ)
    → all_declared earlier pll_parents ≡ true
    → k < 4
    → declares earlier (parent_name k) ≡ true
pll_parent_declared earlier zero all low = ground arith
pll_parent_declared earlier (suc zero) all low = ground arith
pll_parent_declared earlier (suc (suc zero)) all low = ground arith
pll_parent_declared earlier (suc (suc (suc zero))) all low = ground arith
pll_parent_declared earlier (suc (suc (suc (suc k)))) all low = absurd (omega arith)

-- A rate is found.
abbrev pub Found : Option ℕ → Type 0
Found o = (r : ℕ) × (o ≡ some r)

divided_by-Found : (f : ℕ → ℕ) (o : Option ℕ) → Found o → Found (divided_by f o)
divided_by-Found f o (r, e) = rw e (f r, refl)

-- One clock in front of a tree: the rates of its parents and of the other clocks are found.
step :
    (b c : Bool) (own other : Option ℕ)
    → (b ≡ true → Found own)
    → (c ≡ true → Found other)
    → (b || c) ≡ true
    → Found (elim b [ true ↦ own | false ↦ other ])
step true c own other here there h = here refl
step false c own other here there h = there h

both : (b c : Bool) → (b && c) ≡ true → (b ≡ true) × (c ≡ true)
both true c h = (refl, h)
both false c h = absurd cc

-- A clock whose parent is declared knows where its rate comes from.
parent_declared :
    (regs : Registers)
    → Selects regs
    → (earlier : List Clock) (c : Clock) → knows_parents earlier c ≡ true
    → (parent_of regs c ≡ none)
      ⊎ ((p : String) × (parent_of regs c ≡ some p) × (declares earlier p ≡ true))
unfolding parent_of
parent_declared regs selects earlier (fixed n rate) known = inl refl
parent_declared regs selects earlier (frac_pll n nr) known =
    inr (_, refl, pll_parent_declared earlier (regs.frac n).ref_sel known (selects.frac n))
parent_declared regs selects earlier (sccg_pll n nr) known =
    inr (_, refl, pll_parent_declared earlier (regs.sccg_ref_sel n) known (selects.sccg n))
parent_declared regs selects earlier (frac_pll1443 n pll) known =
    let (ref, no_clk) = both (declares earlier "24m_ref_clk") (declares earlier "no_clk") known in
    inr (_, refl, pll14xx_parent_declared earlier (regs.pll14xx n) ref no_clk (selects.pll14xx n))
parent_declared regs selects earlier (frac_pll1416 n pll) known = inl refl
parent_declared regs selects earlier (divider n parent value) known = inr (_, refl, known)
parent_declared regs selects earlier (root n nr refs) known =
    let (eight, all) = both (length refs == 8) (all_declared earlier refs) known in
    let low : (regs.target n).ref_sel < length refs = ground (arith, selects.target n) in
    inr (_, refl, declared_get_or earlier refs (regs.target n).ref_sel all low)
parent_declared regs selects earlier (root_divider n nr parent) known = inr (_, refl, known)
parent_declared regs selects earlier (gate n nr parent) known = inr (_, refl, known)

module _ (regs : Registers) (selects : Selects regs) where
  -- In a tree that knows the parents of its clocks, the way from every clock leads to a source.
  pub tree-IsRooted :
      (tree : List Clock) (name : String)
      → is_closed tree ≡ true
      → declares tree name ≡ true
      → IsRooted regs tree name
  tree-IsRooted [] name closed there = absurd cc
  tree-IsRooted (c ∷ earlier) name closed there =
      let (known, rest) = both (knows_parents earlier c) (is_closed earlier) closed in
      elim (Bool-cases (str_eq (name_of c) name)) [
        | inl hit ↦ elim (parent_declared regs selects earlier c known) [
          | inl none_asked ↦ source hit none_asked
          | inr (p, asked, declared) ↦ asks hit asked (tree-IsRooted earlier p rest declared)
        ]
        | inr miss ↦
            passes miss
              (tree-IsRooted earlier name rest (other (str_eq (name_of c) name) _ miss there))
      ]
    where
      other : (b c : Bool) → b ≡ false → (b || c) ≡ true → c ≡ true
      other true c miss h = absurd cc
      other false c miss h = h

module _ (regs : Registers) (selects : Selects regs) where
  -- In a tree that knows the parents of its clocks, every clock has a rate.
  pub rate_of-Found :
      (tree : List Clock) (name : String)
      → is_closed tree ≡ true
      → declares tree name ≡ true
      → Found (rate_of regs tree name)
  unfolding rate_of name_of
  rate_of-Found [] name closed there = absurd cc
  rate_of-Found (fixed n rate ∷ earlier) name closed there =
      step (str_eq n name) (declares earlier name) _ _ (λ e. (rate, refl))
        (rate_of-Found earlier name closed) there
  rate_of-Found (frac_pll n nr ∷ earlier) name closed there =
      let (known, rest) = both (all_declared earlier pll_parents) (is_closed earlier) closed in
      step (str_eq n name) (declares earlier name) _ _ (λ e. (_, refl))
        (rate_of-Found earlier name rest) there
  rate_of-Found (sccg_pll n nr ∷ earlier) name closed there =
      let (known, rest) = both (all_declared earlier pll_parents) (is_closed earlier) closed in
      step (str_eq n name) (declares earlier name) _ _ (λ e. (_, refl))
        (rate_of-Found earlier name rest) there
  rate_of-Found (frac_pll1443 n pll ∷ earlier) name closed there =
      let (known, rest) =
        both (declares earlier "24m_ref_clk" && declares earlier "no_clk") (is_closed earlier)
          closed in
      step (str_eq n name) (declares earlier name) _ _ (λ e. (_, refl))
        (rate_of-Found earlier name rest) there
  rate_of-Found (frac_pll1416 n pll ∷ earlier) name closed there =
      step (str_eq n name) (declares earlier name) _ _ (λ e. (_, refl))
        (rate_of-Found earlier name closed) there
  rate_of-Found (divider n parent value ∷ earlier) name closed there =
      let (known, rest) = both (declares earlier parent) (is_closed earlier) closed in
      step (str_eq n name) (declares earlier name) _ _
        (λ e. divided_by-Found _ _ (rate_of-Found earlier parent rest known))
        (rate_of-Found earlier name rest) there
  rate_of-Found (root n nr refs ∷ earlier) name closed there =
      let (known, rest) =
        both (length refs == 8 && all_declared earlier refs) (is_closed earlier) closed in
      let (eight, all) = both (length refs == 8) (all_declared earlier refs) known in
      let low : (regs.target n).ref_sel < length refs = ground (arith, selects.target n) in
      step (str_eq n name) (declares earlier name) _ _
        (λ e. divided_by-Found _ _ (
          rate_of-Found earlier _ rest
            (declared_get_or earlier refs (regs.target n).ref_sel all low)))
        (rate_of-Found earlier name rest) there
  rate_of-Found (root_divider n nr parent ∷ earlier) name closed there =
      let (known, rest) = both (declares earlier parent) (is_closed earlier) closed in
      step (str_eq n name) (declares earlier name) _ _
        (λ e. divided_by-Found _ _ (rate_of-Found earlier parent rest known))
        (rate_of-Found earlier name rest) there
  rate_of-Found (gate n nr parent ∷ earlier) name closed there =
      let (known, rest) = both (declares earlier parent) (is_closed earlier) closed in
      step (str_eq n name) (declares earlier name) _ _
        (λ e. rate_of-Found earlier parent rest known) (rate_of-Found earlier name rest) there
