-- ===== src/Bootstrap/Pads.antt =====
-- What the registers of the pads hold after the tables were written.
use mathlib.Core.List.{Memᴰ}
use mathlib.Core.List.Memᴰ.{head, tail}
use genode_imx.Base.{
  ℕ, ◌≡◌, Bool, true, false, not, ◌==◌, ◌&&◌, List, [], ◌∷◌, update, refl, sym, subst, ◌∙◌, arith,
  ap, ◌||◌,
}
use genode_imx.Bootstrap.Tables.{
  imx8q_evk_values, mnt_reform2_values, mnt_reform2_initial_values, imx8mp_iot_gate_values,
}
use genode_imx.Bootstrap.Setup.{
  Memory, write_table, regulator_values, imx8q_evk_pads, mnt_reform2_pads, imx8mp_iot_gate_pads,
}

-- A table has an entry for an address.
abbrev pub has_entry : ℕ → List (ℕ × ℕ) → Bool
has_entry a [] = false
has_entry a ((b, v) ∷ rest) = a == b || has_entry a rest

-- No address has two entries.
abbrev is_distinct : List (ℕ × ℕ) → Bool
is_distinct [] = true
is_distinct ((a, v) ∷ rest) = not (has_entry a rest) && is_distinct rest

write_table-other :
    (t : List (ℕ × ℕ)) (m : Memory) (a : ℕ) → has_entry a t ≡ false → write_table t m a ≡ m a
unfolding write_table
write_table-other [] m a absent = refl
write_table-other ((b, v) ∷ rest) m a absent =
    ground (arith, write_table-other rest (update m b v) a)

write_table-entry :
    (t : List (ℕ × ℕ)) (m : Memory) (a v : ℕ)
    → is_distinct t ≡ true
    → Memᴰ (a, v) t
    → write_table t m a ≡ v
unfolding write_table
write_table-entry [] m a v distinct e = elim e [ ]
write_table-entry ((b, w) ∷ rest) m a v distinct (head e) =
    let same : a ≡ b = ap (λ (p : ℕ × ℕ). p.0) e in
    let same' : v ≡ w = ap (λ (p : ℕ × ℕ). p.1) e in
    ground (arith, write_table-other rest (update m b w) b)
write_table-entry ((b, w) ∷ rest) m a v distinct (tail e) =
    let others : is_distinct rest ≡ true = ground arith in
    write_table-entry rest (update m b w) a v others e

-- The tables have no entry for the same address.
abbrev are_disjoint : List (ℕ × ℕ) → List (ℕ × ℕ) → Bool
are_disjoint [] u = true
are_disjoint ((a, v) ∷ rest) u = not (has_entry a u) && are_disjoint rest u

has_entry-disjoint :
    (t u : List (ℕ × ℕ)) (a v : ℕ) → are_disjoint t u ≡ true → Memᴰ (a, v) t → has_entry a u ≡ false
has_entry-disjoint [] u a v disjoint e = elim e [ ]
has_entry-disjoint ((b, w) ∷ rest) u a v disjoint (head e) =
    let same : b ≡ a = ap (λ (p : ℕ × ℕ). p.0) (sym e) in
    let absent : has_entry b u ≡ false = ground arith in
    subst (λ c. has_entry c u ≡ false) same absent
has_entry-disjoint ((b, w) ∷ rest) u a v disjoint (tail e) =
    let others : are_disjoint rest u ≡ true = ground arith in has_entry-disjoint rest u a v others e

-- After two tables, the second one's entries hold, and those of the first that it does not replace.
two_tables :
    (t u : List (ℕ × ℕ)) (m : Memory) (a v : ℕ)
    → is_distinct t ≡ true
    → is_distinct u ≡ true
    → (Memᴰ (a, v) u → write_table u (write_table t m) a ≡ v)
      × (Memᴰ (a, v) t → has_entry a u ≡ false → write_table u (write_table t m) a ≡ v)
two_tables t u m a v distinct distinct' = (
  write_table-entry u (write_table t m) a v distinct',
  λ e absent. write_table-other u (write_table t m) a absent ∙ write_table-entry t m a v distinct e,
)

imx8q_distinct : is_distinct imx8q_evk_values ≡ true
unfolding imx8q_evk_values
imx8q_distinct = refl

regulator_distinct : is_distinct regulator_values ≡ true
unfolding regulator_values
regulator_distinct = refl

mnt_distinct : is_distinct mnt_reform2_values ≡ true
unfolding mnt_reform2_values
mnt_distinct = refl

initial_distinct : is_distinct mnt_reform2_initial_values ≡ true
unfolding mnt_reform2_initial_values
initial_distinct = refl

gate_distinct : is_distinct imx8mp_iot_gate_values ≡ true
unfolding imx8mp_iot_gate_values
gate_distinct = refl

imx8q_disjoint : are_disjoint imx8q_evk_values regulator_values ≡ true
unfolding imx8q_evk_values regulator_values
imx8q_disjoint = refl

-- After the tables of a board were written, each pad holds the value of its entry, whatever it held
-- before: for imx8q_evk with the entries for its regulator, and for imx8mp_iot_gate. For
-- mnt_reform2, whose second table replaces values of its first, each holds the value of its entry
-- in the second table if it has one, and of that in the first one if not.
pub pads_lem :
    (m : Memory) (a v : ℕ)
    → (Memᴰ (a, v) imx8q_evk_values → imx8q_evk_pads m a ≡ v)
      × (Memᴰ (a, v) regulator_values → imx8q_evk_pads m a ≡ v)
      × (Memᴰ (a, v) imx8mp_iot_gate_values → imx8mp_iot_gate_pads m a ≡ v)
      × (Memᴰ (a, v) mnt_reform2_initial_values → mnt_reform2_pads m a ≡ v)
      × (Memᴰ (a, v) mnt_reform2_values
          → has_entry a mnt_reform2_initial_values ≡ false
          → mnt_reform2_pads m a ≡ v)
unfolding imx8q_evk_pads imx8mp_iot_gate_pads mnt_reform2_pads
pads_lem m a v =
    let (second, first) =
      two_tables imx8q_evk_values regulator_values m a v imx8q_distinct regulator_distinct in
    let (second', first') =
      two_tables mnt_reform2_values mnt_reform2_initial_values m a v mnt_distinct
        initial_distinct in
    (
      λ e. first e (has_entry-disjoint imx8q_evk_values regulator_values a v imx8q_disjoint e),
      second,
      write_table-entry imx8mp_iot_gate_values m a v gate_distinct,
      second',
      first',
    )
