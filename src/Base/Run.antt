-- ===== src/Base/Run.antt =====
-- Commands over a state: what a C function does beside its result. A run that gives no result
-- says why: a NULL dereference, `lx_emul_trace_and_stop`, a lock that is never free, or a loop
-- that has used up its rounds.
use mathlib.Core.Path.{◌≡◌, refl}
use mathlib.Core.Bool.{Bool, true, false}
use mathlib.Core.Option.{Option, none, some}
use genode_imx.Base.Tests.{if◌then◌else◌}

pub data Run (S A : Type 0) : Type 0 where
  ok : A → S → Run S A
  fault : Run S A
  stopped : Run S A
  deadlock : Run S A
  waiting : Run S A

abbrev pub Cmd : Type 0 → Type 0 → Type 0
Cmd S A = S → Run S A

module _ {S A : Type 0} where
  abbrev pub pure : A → Cmd S A
  pure a s = ok a s

module _ {S : Type 0} where
  abbrev pub get_state : Cmd S S
  get_state s = ok s s

  abbrev pub modify : (S → S) → Cmd S (Unit {0})
  modify f s = ok tt (f s)

module _ {S A B : Type 0} where
  abbrev pub and_then : Run S A → (A → Cmd S B) → Run S B
  and_then (ok a s) k = k a s
  and_then fault k = fault
  and_then stopped k = stopped
  and_then deadlock k = deadlock
  and_then waiting k = waiting

  infixl 5 ◌>>=◌
  abbrev pub ◌>>=◌ : Cmd S A → (A → Cmd S B) → Cmd S B
  m >>= k = λ s. and_then (m s) k

module _ {S B : Type 0} where
  infixl 5 ◌>>◌
  abbrev pub ◌>>◌ : Cmd S (Unit {0}) → Cmd S B → Cmd S B
  m >> n = m >>= λ _. n

-- What holds of the result and the state of a run that returns.
module _ {S A : Type 0} where
  abbrev pub AfterOk : (A → S → Type 0) → Run S A → Type 0
  AfterOk P (ok a s) = P a s
  AfterOk P r = Unit {0}

-- The rule for a sequence of two commands.
pub AfterOk-and_then :
    {S A B : Type 0} (P : A → S → Type 0) (Q : B → S → Type 0) (r : Run S A) (k : A → Cmd S B)
    → AfterOk P r
    → ((a : A) (s : S) → P a s → AfterOk Q (k a s))
    → AfterOk Q (and_then r k)
AfterOk-and_then P Q (ok a s) k h f = f a s h
AfterOk-and_then P Q fault k h f = tt
AfterOk-and_then P Q stopped k h f = tt
AfterOk-and_then P Q deadlock k h f = tt
AfterOk-and_then P Q waiting k h f = tt

-- The rules for the two ways to branch: each branch has what was tested.
module _ {S A : Type 0} (P : A → S → Type 0) where
  pub AfterOk-if :
      (b : Bool) (r t : Run S A)
      → (b ≡ true → AfterOk P r)
      → (b ≡ false → AfterOk P t)
      → AfterOk P (if b then r else t)
  AfterOk-if true r t f g = f refl
  AfterOk-if false r t f g = g refl

  pub AfterOk-if_cmd :
      (b : Bool) (m n : Cmd S A) (s : S)
      → (b ≡ true → AfterOk P (m s))
      → (b ≡ false → AfterOk P (n s))
      → AfterOk P ((if b then m else n) s)
  AfterOk-if_cmd true m n s f g = f refl
  AfterOk-if_cmd false m n s f g = g refl

  pub AfterOk-option :
      {B : Type 0} (o : Option B) (r : Run S A) (k : B → Run S A)
      → (o ≡ none → AfterOk P r)
      → ((b : B) → o ≡ some b → AfterOk P (k b))
      → AfterOk P (elim o [ none ↦ r | some b ↦ k b ])
  AfterOk-option none r k f g = f refl
  AfterOk-option (some b) r k f g = g b refl
