-- ===== src/PciHost/Buses.antt =====
-- The bus numbers in the report of the PCIe driver.
use genode_imx.Base.{
  ℕ, zero, suc, ◌+◌, ◌*◌, ◌%◌, ◌≡◌, ◌<◌, Option, none, some, List, [], ◌∷◌, refl, ◌∙◌, arith, map,
  get_or, length,
}
use genode_imx.PciHost.Registers.{Hardware, Machine}
use genode_imx.PciHost.Scanner.{Node, Report, scan, scan_all, generate_report}

module _ {W : Type 0} (hw : Hardware W) where
  scan-bus :
      (bus : ℕ) (d : Node) (m : Machine W) (r : Report) → (scan hw bus d m).1 ≡ some r → r.bus ≡ bus
  unfolding scan
  scan-bus bus d m r e = ground arith

  abbrev bus_at : ℕ → List Report → ℕ
  bus_at k rs = get_or (map (λ (r : Report). r.bus) rs) k 0

  -- The report with the outcome of one more node before it.
  bus_at-elim :
      (o : Option Report) (bus : ℕ) (same next : List Report) (k : ℕ)
      → bus < 256
      → ((r : Report) → o ≡ some r → r.bus ≡ bus)
      → ((j : ℕ) → j < length same → bus_at j same ≡ (bus + 16 * j) % 256)
      → ((j : ℕ) → j < length next → bus_at j next ≡ ((bus + 16) % 256 + 16 * j) % 256)
      → k < length (elim o [ none ↦ same | some r ↦ r ∷ next ])
      → bus_at k (elim o [ none ↦ same | some r ↦ r ∷ next ]) ≡ (bus + 16 * k) % 256
  bus_at-elim none bus same next k small mine later after low = later k low
  bus_at-elim (some r) bus same next zero small mine later after low = mine r refl ∙ omega arith
  bus_at-elim (some r) bus same next (suc k) small mine later after low =
      after k (omega arith) ∙ omega arith

  scan_all_lem :
      (ds : List (Node × Machine W)) (bus k : ℕ)
      → bus < 256
      → k < length (scan_all hw ds bus)
      → bus_at k (scan_all hw ds bus) ≡ (bus + 16 * k) % 256
  unfolding scan_all
  scan_all_lem [] bus k small low = absurd (omega arith)
  scan_all_lem ((d, m) ∷ ds) bus k small low =
      bus_at-elim (scan hw bus d m).1 bus (scan_all hw ds bus) (scan_all hw ds ((bus + 16) % 256)) k
        small (scan-bus bus d m) (λ j. scan_all_lem ds bus j small)
        (λ j. scan_all_lem ds ((bus + 16) % 256) j (omega arith)) low

  -- The devices of the report have the buses 0, 16, 32 and so on, in order, modulo 256: a node for
  -- which no controller could be started leaves no gap.
  pub generate_report_lem :
      (ds : List (Node × Machine W)) (k : ℕ)
      → k < length (generate_report hw ds)
      → get_or (map (λ (r : Report). r.bus) (generate_report hw ds)) k 0 ≡ (16 * k) % 256
  unfolding generate_report
  generate_report_lem ds k low = scan_all_lem ds 0 k (omega arith) low ∙ omega arith
