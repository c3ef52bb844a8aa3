-- ===== src/Display/Screens.antt =====
-- src/drivers/framebuffer/imx8mq/main.cc: the screens that the Linux side announces; and
-- src/drivers/pwm/imx8mq/main.cc, which sets their backlight.
use Prim.Native.String.{String}
use text.Mathlib.Text.{◌==◌ as str_eq}
use genode_imx.Base.{
  ℕ, ◌+◌, ◌*◌, ◌/◌, ◌%◌, ◌^◌, ◌≡◌, if◌then◌else◌, Option, none, some, List, [], ◌∷◌, take, refl,
  arith,
}

-- `Driver::Fb`, by what it is constructed from
pub record Fb : Type 0 where
  pub base : ℕ
  pub xres : ℕ
  pub yres : ℕ

-- The loop of `lx_emul_framebuffer_ready` over the screens.
unfoldable pub lx_emul_framebuffer_ready : Fb → List (Option Fb) → List (Option Fb)
lx_emul_framebuffer_ready f [] = []
lx_emul_framebuffer_ready f (none ∷ rest) = some f ∷ rest
lx_emul_framebuffer_ready f (some g ∷ rest) = some g ∷ lx_emul_framebuffer_ready f rest

-- `Driver::fb`, before any call.
abbrev pub no_screens : List (Option Fb)
no_screens = none ∷ none ∷ []

-- `handle_timer`: the screens that it paints.
unfoldable pub handle_timer : List (Option Fb) → List Fb
handle_timer [] = []
handle_timer (none ∷ rest) = handle_timer rest
handle_timer (some f ∷ rest) = f ∷ handle_timer rest

-- Several calls.
unfoldable pub announced : List Fb → List (Option Fb) → List (Option Fb)
announced [] screens = screens
announced (f ∷ fs) screens = announced fs (lx_emul_framebuffer_ready f screens)

full : (f g : Fb) (fs : List Fb) → handle_timer (announced fs (some f ∷ some g ∷ [])) ≡ f ∷ g ∷ []
unfolding handle_timer announced lx_emul_framebuffer_ready
full f g [] = refl
full f g (h ∷ fs) = full f g fs

-- The first two screens that are announced are painted, in their order, and no later one is.
handle_timer-announced : (fs : List Fb) → handle_timer (announced fs no_screens) ≡ take 2 fs
unfolding handle_timer announced lx_emul_framebuffer_ready
handle_timer-announced [] = refl
handle_timer-announced (f ∷ []) = refl
handle_timer-announced (f ∷ g ∷ fs) = full f g fs

-- `Pwm::Clk_src`, from the attribute `clock_source`: the last test that holds counts.
unfoldable pub clk_src : (clk : String) → ℕ
clk_src clk =
    let ipg = if str_eq clk "ipg" then 1 else 0 in
    let ipg_highfreq = if str_eq clk "ipg_highfreq" then 2 else ipg in
    if str_eq clk "ipg_32k" then 3 else ipg_highfreq

-- The control word that `Pwm::Pwm` writes after the period and the sample.
unfoldable pub control : (src : ℕ) → ℕ
control src = 1 + 2 ^ 22 + 2 ^ 23 + 2 ^ 24 + 2 ^ 25 + src % 2 ^ 2 * 2 ^ 16

-- The control word says that the unit is enabled and which clock it takes.
control-clk_src :
    (clk : String)
    → (control (clk_src clk) % 2 ≡ 1) × (control (clk_src clk) / 2 ^ 16 % 2 ^ 2 ≡ clk_src clk)
unfolding control clk_src
control-clk_src clk = ground arith
