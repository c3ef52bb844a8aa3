-- ===== src/Gpio/Banks.antt =====
-- Which banks the GPIO driver constructs, and how it leaves them.
use genode_imx.Base.{
  ℕ, zero, suc, ◌+◌, ◌-◌, ◌≡◌, ◌≢◌, ◌<◌, Bool, true, false, ◌&&◌, leb, ltb, ◌==◌, if◌then◌else◌,
  Option, none, some, List, [], ◌∷◌, refl, sym, ap, ◌∙◌, fun_ext, arith, update, inl, inr,
  Bool-cases, Option-cases, get_or, set, length, replicate, length-set, get_or-set_self,
  get_or-set_ne,
}
use genode_imx.Gpio.Bank.{max_banks, Conf, low_level, Bank}
use genode_imx.Gpio.Probe.{Node, Clear, reset_pins, construct_bank, probe, construct_driver}

-- A device node that has all that a bank needs.
abbrev pub is_complete : Node → Bool
is_complete d = d.has_name && (d.io_mem_valid && (d.irq_low_valid && d.irq_high_valid))

-- The `k`-th complete node.
unfoldable pub complete : List Node → ℕ → Option Node
complete [] k = none
complete (d ∷ ds) k =
    let later = complete ds k in
    elim (is_complete d) [ true ↦ elim k [ zero ↦ some d | suc j ↦ complete ds j ] | false ↦ later ]

abbrev with_pins : Bank → (ℕ → Conf) → (ℕ → Bool) → Bank
with_pins b conf mask = record b { int_conf = conf; int_mask = mask }

-- Pins from `j` on are reset.
abbrev conf_reset : (n j : ℕ) → Bank → ℕ → Conf
conf_reset n j b i = if leb j i && ltb i (j + n) then low_level else b.int_conf i

abbrev mask_reset : (n j : ℕ) → Bank → ℕ → Bool
mask_reset n j b i = if leb j i && ltb i (j + n) then false else b.int_mask i

same_pins :
    (b : Bank) {f f' : ℕ → Conf} {g g' : ℕ → Bool}
    → ((i : ℕ) → f i ≡ f' i)
    → ((i : ℕ) → g i ≡ g' i)
    → with_pins b f g ≡ with_pins b f' g'
same_pins b {f} {f'} {g} {g'} p q =
    ap (λ h. with_pins b h g) (fun_ext p) ∙ ap (λ h. with_pins b f' h) (fun_ext q)

pub reset_pins_lem :
    (n j : ℕ) (b : Bank) → reset_pins n j b ≡ with_pins b (conf_reset n j b) (mask_reset n j b)
unfolding reset_pins
reset_pins_lem zero j b = same_pins b (λ i. ground arith) (λ i. ground arith)
reset_pins_lem (suc n) j b =
    let next = with_pins b (update b.int_conf j low_level) (update b.int_mask j false) in
    reset_pins_lem n (j + 1) next ∙ same_pins b (λ i. ground arith) (λ i. ground arith)

-- One round of the loop over the nodes.
probe-cons :
    (clear : Clear) (d : Node) (ds : List Node) (i : ℕ) (banks : List (Option Bank))
    → probe clear (d ∷ ds) i banks ≡ (
        if ltb i max_banks && is_complete d
        then probe clear ds (i + 1) (set banks i (some (construct_bank clear d.regs)))
        else probe clear ds i banks)
unfolding probe
probe-cons clear d ds i banks = ground arith

-- What the loop from bank `i` on makes of bank `k`.
abbrev entry : Clear → List Node → (i k : ℕ) → List (Option Bank) → Option Bank
entry clear ds i k banks =
    if leb i k && ltb k max_banks
    then elim (complete ds (k - i)) [
      | none ↦ get_or banks k none
      | some d ↦ some (construct_bank clear d.regs)
    ]
    else get_or banks k none

entry-made :
    (clear : Clear) (d : Node) (ds : List Node) (i k : ℕ) (banks : List (Option Bank))
    → i < max_banks
    → is_complete d ≡ true
    → length banks ≡ max_banks
    → entry clear ds (i + 1) k (set banks i (some (construct_bank clear d.regs)))
      ≡ entry clear (d ∷ ds) i k banks
unfolding complete
entry-made clear d ds i k banks low whole len = elim (Bool-cases (k == i)) [
  | inl hit ↦
      let here : k ≡ i = ground arith in
      let first : k - i ≡ 0 = omega arith in
      let self : get_or (set banks i (some (construct_bank clear d.regs))) i none
          ≡ some (construct_bank clear d.regs) =
        get_or-set_self banks i (some (construct_bank clear d.regs)) none (omega arith) in
      rw (here, whole, first) (ground (arith, self, low))
  | inr miss ↦
      let other : i ≢ k = ground arith in
      let kept = get_or-set_ne banks i k (some (construct_bank clear d.regs)) none other in
      rw kept (elim (Bool-cases (ltb i k)) [
        | inl later ↦
            let next : k - i ≡ suc (k - (i + 1)) = ground arith in rw (whole, next) (ground arith)
        | inr earlier ↦ ground arith
      ])
]

entry-left_out :
    (clear : Clear) (d : Node) (ds : List Node) (i k : ℕ) (banks : List (Option Bank))
    → (ltb i max_banks && is_complete d) ≡ false
    → entry clear ds i k banks ≡ entry clear (d ∷ ds) i k banks
unfolding complete
entry-left_out clear d ds i k banks out = ground arith

probe_lem :
    (clear : Clear) (ds : List Node) (i k : ℕ) (banks : List (Option Bank))
    → length banks ≡ max_banks
    → get_or (probe clear ds i banks) k none ≡ entry clear ds i k banks
unfolding probe complete
probe_lem clear [] i k banks len = ground arith
probe_lem clear (d ∷ ds) i k banks len =
    let x = some (construct_bank clear d.regs) in
    ap (λ bs. get_or bs k none) (probe-cons clear d ds i banks)
    ∙ elim (Bool-cases (ltb i max_banks && is_complete d)) [
      | inl made ↦ rw made (
          probe_lem clear ds (i + 1) k (set banks i x) (length-set banks i x ∙ len)
          ∙ entry-made clear d ds i k banks (ground arith) (ground arith) len)
      | inr out ↦
          rw out (probe_lem clear ds i k banks len ∙ entry-left_out clear d ds i k banks out)
    ]

-- Bank `k` is made of the `k`-th device node that has a name, memory and both interrupts, if
-- there is one, for the first eight of them, and no other bank is constructed.
pub construct_driver_lem :
    (clear : Clear) (ds : List Node) (k : ℕ)
    → get_or (construct_driver clear ds).banks k none ≡ (
        if ltb k max_banks
        then elim (complete ds k) [ none ↦ none | some d ↦ some (construct_bank clear d.regs) ]
        else none)
unfolding construct_driver
construct_driver_lem clear ds k =
    let blank : Path (Option Bank) (get_or (replicate max_banks none) k none) none =
      get_or-blank max_banks k in
    probe_lem clear ds 0 k (replicate max_banks none) refl ∙ ends blank
  where
    same_place : k - 0 ≡ k
    same_place = omega arith

    ends :
        Path (Option Bank) (get_or (replicate max_banks none) k none) none
        → entry clear ds 0 k (replicate max_banks none) ≡ (
            if ltb k max_banks
            then elim (complete ds k) [ none ↦ none | some d ↦ some (construct_bank clear d.regs) ]
            else none)
    ends blank = elim (Option-cases (complete ds k)) [
      | inl out ↦ rw (same_place, out, blank) (ground arith)
      | inr (d, found) ↦ rw (same_place, found, blank) (ground arith)
    ]

    get_or-blank : (n k : ℕ) → Path (Option Bank) (get_or (replicate n none) k none) none
    get_or-blank zero k = refl
    get_or-blank (suc n) zero = refl
    get_or-blank (suc n) (suc k) = get_or-blank n k

length-probe :
    (clear : Clear) (ds : List Node) (i : ℕ) (banks : List (Option Bank))
    → length (probe clear ds i banks) ≡ length banks
unfolding probe
length-probe clear [] i banks = refl
length-probe clear (d ∷ ds) i banks =
    ap length (probe-cons clear d ds i banks)
    ∙ elim (Bool-cases (ltb i max_banks && is_complete d)) [
      | inl made ↦
          let x = some (construct_bank clear d.regs) in
          rw made (length-probe clear ds (i + 1) (set banks i x) ∙ length-set banks i x)
      | inr out ↦ rw out (length-probe clear ds i banks)
    ]

pub length-construct_driver :
    (clear : Clear) (ds : List Node) → length (construct_driver clear ds).banks ≡ max_banks
unfolding construct_driver
length-construct_driver clear ds = length-probe clear ds 0 (replicate max_banks none)

-- Each bank that is there was constructed from a complete node.
pub constructed_from :
    (clear : Clear) (ds : List Node) (k : ℕ) (b : Bank)
    → get_or (construct_driver clear ds).banks k none ≡ some b
    → (d : Node) × (complete ds k ≡ some d) × (b ≡ construct_bank clear d.regs)
constructed_from clear ds k b found =
    pick (complete ds k) refl (ltb k max_banks) (sym (construct_driver_lem clear ds k) ∙ found)
  where
    pick :
        (o : Option Node)
        → complete ds k ≡ o
        → (low : Bool)
        → (if low
            then elim o [ none ↦ none | some d ↦ some (construct_bank clear d.regs) ]
            else none)
          ≡ some b
        → (d : Node) × (complete ds k ≡ some d) × (b ≡ construct_bank clear d.regs)
    pick none e true f = absurd cc
    pick (some d) e true f = (d, e, cc)
    pick o e false f = absurd cc
