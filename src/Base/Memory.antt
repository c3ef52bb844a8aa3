-- ===== src/Base/Memory.antt =====
-- The C library's block operations on a buffer given as the list of its bytes.
use Prim.Native.Nat.{ℕ, zero, suc, ◌-◌, ◌≤◌}
use mathlib.Core.Path.{◌≡◌, refl, ap}
use mathlib.Core.List.{List, [], ◌∷◌, ◌++◌}
use native.Mathlib.Omega.{arith}
use genode_imx.Base.Lists.{length, replicate}

-- `memcpy(dst, src, n)` for a source of `n` bytes; what does not fit is not written.
unfoldable pub memcpy : List ℕ → List ℕ → List ℕ
memcpy [] src = []
memcpy (d ∷ dst) [] = d ∷ dst
memcpy (d ∷ dst) (x ∷ src) = x ∷ memcpy dst src

-- `memset(dst + from, 0, length - from)`
unfoldable pub memset_from : ℕ → List ℕ → List ℕ
memset_from n [] = []
memset_from zero (d ∷ dst) = 0 ∷ memset_from zero dst
memset_from (suc n) (d ∷ dst) = d ∷ memset_from n dst

pub memset-zero : (dst : List ℕ) → memset_from 0 dst ≡ replicate (length dst) 0
unfolding memset_from
memset-zero [] = refl
memset-zero (d ∷ dst) = ap (λ l. 0 ∷ l) (memset-zero dst)

pub memset-memcpy :
    (dst src : List ℕ)
    → length src ≤ length dst
    → memset_from (length src) (memcpy dst src) ≡ src ++ replicate (length dst - length src) 0
unfolding memset_from memcpy
memset-memcpy [] [] h = refl
memset-memcpy [] (x ∷ src) h = absurd (omega arith)
memset-memcpy (d ∷ dst) [] h =
    let e : suc (length dst) - 0 ≡ suc (length dst) = omega arith in
    rw e (ap (λ l. 0 ∷ l) (memset-zero dst))
memset-memcpy (d ∷ dst) (x ∷ src) h =
    let e : suc (length dst) - suc (length src) ≡ length dst - length src = omega arith in
    rw e (ap (λ l. x ∷ l) (memset-memcpy dst src (omega arith)))

pub length-memcpy : (dst src : List ℕ) → length (memcpy dst src) ≡ length dst
unfolding memcpy
length-memcpy [] src = refl
length-memcpy (d ∷ dst) [] = refl
length-memcpy (d ∷ dst) (x ∷ src) = ap suc (length-memcpy dst src)

-- A source as long as the buffer fills it.
pub memcpy_full : (dst src : List ℕ) → length src ≡ length dst → memcpy dst src ≡ src
unfolding memcpy
memcpy_full [] [] h = refl
memcpy_full [] (x ∷ src) h = absurd (omega arith)
memcpy_full (d ∷ dst) [] h = absurd (omega arith)
memcpy_full (d ∷ dst) (x ∷ src) h = ap (λ l. x ∷ l) (memcpy_full dst src (omega arith))
