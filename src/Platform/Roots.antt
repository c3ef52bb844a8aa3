-- ===== src/Platform/Roots.antt =====
-- How `Root_clock` and `Gate` of src/drivers/platform/imx8mq/ccm.cc are switched: an operation is the
-- list of what it does, calls for other clocks included, in its order.
use Prim.Native.String.{String}
use text.Mathlib.Text.{◌==◌ as str_eq}
use genode_imx.Base.{
  ℕ, zero, suc, ◌+◌, ◌≡◌, ◌⊎◌, ◌<◌, true, false, if◌then◌else◌, List, [], ◌∷◌, get_or, length, refl,
  arith, inl, inr, Bool-cases, ap, ◌∙◌,
}

pub data Act : Type 0 where
  enable : String → Act
  disable : String → Act
  write_ref_sel : ℕ → Act
  write_enable : ℕ → Act
  write_ccgr : ℕ → Act

-- `Root_clock::parent`, from the reference clock `i` on; the warning is left out.
unfoldable pub root_parent : (ref_clks : List String) (i : ℕ) (name : String) → List Act
root_parent [] i name = []
root_parent (ref ∷ rest) i name =
    let next = root_parent rest (i + 1) name in
    if str_eq ref name then enable ref ∷ write_ref_sel i ∷ [] else next

-- `Root_clock::_enable` and `_disable`, for the reference clock that is selected.
abbrev pub root_enable : (ref : String) → List Act
root_enable ref = enable ref ∷ write_enable 1 ∷ []

abbrev pub root_disable : List Act
root_disable = write_enable 0 ∷ []

-- `Gate::_enable` and `_disable`
abbrev pub gate_enable : (parent : String) → List Act
gate_enable parent = enable parent ∷ write_ccgr 3 ∷ []

abbrev pub gate_disable : (parent : String) → List Act
gate_disable parent = disable parent ∷ write_ccgr 0 ∷ []

-- What the choice of a parent may do: nothing, if no reference clock has the name; else the clock
-- that it selects is the first with the name, and is enabled before.
abbrev pub Chosen : (ref_clks : List String) (i : ℕ) (name : String) → List Act → Type 0
Chosen ref_clks i name acts =
    ((acts ≡ []) × ((j : ℕ) → j < length ref_clks → str_eq (get_or ref_clks j "") name ≡ false))
    ⊎ ((k : ℕ) × (acts ≡ enable (get_or ref_clks k "") ∷ write_ref_sel (i + k) ∷ [])
        × (k < length ref_clks)
        × (str_eq (get_or ref_clks k "") name ≡ true)
        × ((j : ℕ) → j < k → str_eq (get_or ref_clks j "") name ≡ false))

-- Choosing a parent selects the first reference clock with the name, after enabling it; without
-- one it does nothing.
pub root_parent-Chosen :
    (ref_clks : List String) (i : ℕ) (name : String)
    → Chosen ref_clks i name (root_parent ref_clks i name)
unfolding root_parent
root_parent-Chosen [] i name = inl (refl, λ j low. absurd (omega arith))
root_parent-Chosen (ref ∷ rest) i name = elim (Bool-cases (str_eq ref name)) [
  | inl hit ↦
      let e : i ≡ i + 0 = omega arith in
      rw hit (
        inr (
          0,
          ap (λ n. enable ref ∷ write_ref_sel n ∷ []) e,
          omega arith,
          hit,
          λ j low. absurd (omega arith),
        ))
  | inr miss ↦ rw miss (later miss (root_parent-Chosen rest (i + 1) name))
]
  where
    acts : List Act
    acts = root_parent rest (i + 1) name

    below :
        (k : ℕ)
        → str_eq ref name ≡ false
        → ((j : ℕ) → j < k → str_eq (get_or rest j "") name ≡ false)
        → (j : ℕ) → j < suc k
        → str_eq (get_or (ref ∷ rest) j "") name ≡ false
    below k miss others zero low = miss
    below k miss others (suc j) low = others j (omega arith)

    later :
        str_eq ref name ≡ false → Chosen rest (i + 1) name acts → Chosen (ref ∷ rest) i name acts
    later miss (inl (same, others)) = inl (same, below (length rest) miss others)
    later miss (inr (k, same, low, hit, others)) =
        let e : i + 1 + k ≡ i + suc k = omega arith in
        inr (
          suc k,
          same ∙ ap (λ n. enable (get_or rest k "") ∷ write_ref_sel n ∷ []) e,
          omega arith,
          hit,
          below k miss others,
        )
