-- ===== src/Ipu/Memory.antt =====
-- What the display's DMA channels read after `init` of src/drivers/framebuffer/imx53/ipu.h.
use genode_imx.Base.{
  ℕ, zero, suc, ◌+◌, ◌*◌, ◌/◌, ◌%◌, ◌^◌, ◌≡◌, ◌≤◌, ◌<◌, Bool, true, false, List, [], ◌∷◌, ◌++◌,
  update, refl, sym, arith, take, subst, ◌≢◌, ◌==◌, ==_of_ne, Option, none, some, if◌then◌else◌,
}
use genode_imx.Ipu.Registers.{Access, write, store, enable, read_mem_rst}
use genode_imx.Ipu.Displays.{init_di0, init_di1}
use genode_imx.Ipu.Init.{wait_mem_rst, init, init_common, init_overlay, stop_and_reset}
use genode_imx.Base.{replicate, not}
use genode_imx.Base.Poll.{poll-some}
use genode_imx.Ipu.Descriptor.{
  descriptor, pack, init_dma_channel, words_of, first_half, second_half,
}

-- The number that words make, and the bits of a half of a descriptor, by the positions of its fields.
abbrev number_of : List ℕ → ℕ
number_of [] = 0
number_of (w ∷ rest) = w + 2 ^ 32 * number_of rest

abbrev bits : List ℕ → (offset width : ℕ) → ℕ
bits words offset width = number_of words / 2 ^ offset % 2 ^ width

number-words : (n : ℕ) → n < 2 ^ 160 → number_of (words_of n) ≡ n
number-words n low = omega arith

abbrev drop : ℕ → List ℕ → List ℕ
drop zero xs = xs
drop (suc n) [] = []
drop (suc n) (x ∷ xs) = drop n xs

-- A descriptor describes a buffer: both addresses, the lines and their length, and pixels of 32 bits
-- in four parts.
abbrev pub Describes : (width height stride phys_base : ℕ) → List ℕ → Type 0
Describes width height stride phys_base words =
    (bits (take 8 words) 125 13 + 1 ≡ width)
    × (bits (take 8 words) 138 12 + 1 ≡ height)
    × (bits (take 8 words) 107 3 ≡ 0)
    × (bits (drop 8 words) 0 29 * 8 ≡ phys_base)
    × (bits (drop 8 words) 29 29 * 8 ≡ phys_base)
    × (bits (drop 8 words) 102 14 + 1 ≡ stride)
    × (bits (drop 8 words) 85 4 ≡ 7)

-- A display and a buffer that fit the fields of a descriptor.
pub record Suits (width height stride phys_base : ℕ) : Type 0 where
  pub width_pos : 0 < width
  pub width_low : width ≤ 2 ^ 13
  pub height_pos : 0 < height
  pub height_low : height ≤ 2 ^ 12
  pub stride_pos : 0 < stride
  pub stride_low : stride ≤ 2 ^ 14
  pub address_low : phys_base < 2 ^ 32
  pub aligned : phys_base % 8 ≡ 0

module _ (w h s p : ℕ) (suits : Suits w h s p) where
  first-fields :
      let n = pack (first_half (init_dma_channel w h s p)) in
      (n < 2 ^ 160)
      × (n / 2 ^ 125 % 2 ^ 13 + 1 ≡ w)
      × (n / 2 ^ 138 % 2 ^ 12 + 1 ≡ h)
      × (n / 2 ^ 107 % 2 ^ 3 ≡ 0)
  unfolding pack init_dma_channel
  first-fields = omega (arith, suits.width_pos, suits.width_low, suits.height_pos, suits.height_low)

  second-fields :
      let n = pack (second_half (init_dma_channel w h s p)) in
      (n < 2 ^ 160)
      × (n % 2 ^ 29 * 8 ≡ p)
      × (n / 2 ^ 29 % 2 ^ 29 * 8 ≡ p)
      × (n / 2 ^ 102 % 2 ^ 14 + 1 ≡ s)
      × (n / 2 ^ 85 % 2 ^ 4 ≡ 7)
  unfolding pack init_dma_channel
  second-fields =
      omega (arith, suits.stride_pos, suits.stride_low, suits.address_low, suits.aligned)

  descriptor-Describes : Describes w h s p (descriptor (init_dma_channel w h s p))
  unfolding descriptor
  descriptor-Describes =
      let x = pack (first_half (init_dma_channel w h s p)) in
      let y = pack (second_half (init_dma_channel w h s p)) in
      let (low, fw, fh, bpp) = first-fields in
      let (low', eba0, eba1, sly, pfs) = second-fields in
      rw (number-words x low, number-words y low')
        (fw, fh, bpp, omega (arith, eba0), eba1, sly, pfs)

-- The descriptors in memory after accesses.
abbrev pub memory_after : List Access → (ℕ → List ℕ) → ℕ → List ℕ
memory_after [] m = m
memory_after (store c words ∷ rest) m = memory_after rest (update m c words)
memory_after (write r v ∷ rest) m = memory_after rest m
memory_after (enable c v ∷ rest) m = memory_after rest m
memory_after (read_mem_rst b ∷ rest) m = memory_after rest m

-- The reads of the loop leave the memory as it is.
reads_lem :
    (k : ℕ) (rest : List Access) (m : ℕ → List ℕ)
    → memory_after ((replicate k (read_mem_rst true) ++ read_mem_rst false ∷ []) ++ rest) m
      ≡ memory_after rest m
reads_lem zero rest m = refl
reads_lem (suc k) rest m = reads_lem k rest m

reads-memory :
    (fuel : ℕ) (busy : ℕ → Bool) (reads rest : List Access) (m : ℕ → List ℕ)
    → wait_mem_rst fuel busy ≡ some reads
    → memory_after (reads ++ rest) m ≡ memory_after rest m
unfolding wait_mem_rst
reads-memory fuel busy reads rest m e =
    let (k, shape) =
      poll-some (λ over. read_mem_rst (not over)) (λ n. not (busy n)) fuel 0 reads e in
    subst (λ l. memory_after (l ++ rest) m ≡ memory_after rest m) (sym shape) (reads_lem k rest m)

module _ (width height stride phys_base : ℕ) (di0 : Bool) where
  abbrev display : List Access
  display =
      let cp = descriptor (init_dma_channel width height stride phys_base) in
      if di0 then init_di0 cp else init_di1 cp

  display-memory :
      (m : ℕ → List ℕ) (c : ℕ)
      → memory_after (init_common ++ (display ++ init_overlay)) m c ≡ (
          if 27 == c
          then descriptor (init_dma_channel width height stride phys_base)
          else if 23 == c
          then descriptor (init_dma_channel width height stride phys_base)
          else m c)
  unfolding init_common init_di0 init_di1 init_overlay
  display-memory m c =
      let cp = descriptor (init_dma_channel width height stride phys_base) in
      elim di0
        as (λ d.
          memory_after (init_common ++ ((if d then init_di0 cp else init_di1 cp) ++ init_overlay)) m
            c
          ≡ (if 27 == c then cp else if 23 == c then cp else m c)) [ true ↦ refl | false ↦ refl ]

  init-memory :
      (fuel : ℕ) (busy : ℕ → Bool) (accesses : List Access) (m : ℕ → List ℕ)
      → init fuel busy width height stride phys_base di0 ≡ some accesses
      → memory_after accesses m ≡ memory_after (init_common ++ (display ++ init_overlay)) m
  unfolding init stop_and_reset
  init-memory fuel busy accesses m e =
      pick (wait_mem_rst fuel busy) (λ reads. reads-memory fuel busy reads _ m) e
    where
      rest : List Access
      rest = init_common ++ (display ++ init_overlay)

      pick :
          (o : Option (List Access))
          → ((reads : List Access)
              → o ≡ some reads
              → memory_after (reads ++ rest) m ≡ memory_after rest m)
          → elim o [ none ↦ none | some reads ↦ some (stop_and_reset ++ (reads ++ rest)) ]
            ≡ some accesses
          → memory_after accesses m ≡ memory_after rest m
      pick none after h = absurd cc
      pick (some reads) after h =
          let same : stop_and_reset ++ (reads ++ rest) ≡ accesses = cc in
          subst (λ l. memory_after l m ≡ memory_after rest m) same (after reads refl)

  -- After initialising, the descriptors of the two channels of the display, 23 and 27, describe the
  -- buffer that was given, if display and buffer fit the fields, whichever display it is; the
  -- descriptors of the other channels are as before.
  pub init-Describes :
      (fuel : ℕ) (busy : ℕ → Bool) (accesses : List Access) (m : ℕ → List ℕ)
      → Suits width height stride phys_base
      → init fuel busy width height stride phys_base di0 ≡ some accesses
      → Describes width height stride phys_base (memory_after accesses m 23)
        × Describes width height stride phys_base (memory_after accesses m 27)
        × ((c : ℕ) → c ≢ 23 → c ≢ 27 → memory_after accesses m c ≡ m c)
  init-Describes fuel busy accesses m suits e =
      let after = init-memory fuel busy accesses m e in
      let good = descriptor-Describes width height stride phys_base suits in
      (
        rw (after, display-memory m 23) good,
        rw (after, display-memory m 27) good,
        λ c not_main not_auxi.
            rw
              (
                after,
                display-memory m c,
                ==_of_ne 27 c (λ s. not_auxi (sym s)),
                ==_of_ne 23 c (λ s. not_main (sym s)),
              )
              refl,
      )
