-- ===== src/Gpu/Server/Handles.antt =====
-- No history of calls loses or forgets an object of the kernel.
use genode_imx.Base.{
  ℕ, ◌+◌, ◌≡◌, some, ◌==◌, List, [], ◌∷◌, refl, ap, subst, arith, inl, inr, Bool-cases,
}
use genode_imx.Base.Run.{ok, AfterOk}
use genode_imx.Gpu.Abi.{Abi}
use genode_imx.Gpu.Server.State.{OpType, Buffer, created, closed, DrmCalls, Server, find, remove}
use genode_imx.Gpu.Server.Frame.{made_by, gone_by, made, gone, Change, same, added, dropped}
use genode_imx.Gpu.Server.Calls.{Call, Asks, step, step-Change}

-- How many buffers stand for an object.
unfoldable pub held : ℕ → List (ℕ × Buffer) → ℕ
held h [] = 0
held h ((id, b) ∷ bs) = made_by h (created b.handle) + held h bs

held-remove :
    (h id : ℕ) (bs : List (ℕ × Buffer)) (b : Buffer)
    → find id bs ≡ some b
    → held h bs ≡ held h (remove id bs) + gone_by h (closed b.handle)
unfolding held find remove
held-remove h id [] b e = cc
held-remove h id ((j, c) ∷ bs) b e = elim (Bool-cases (j == id)) [
  | inl hit ↦ let same_one : c ≡ b = ground arith in rw (hit, same_one) (ground arith)
  | inr miss ↦
      let later : find id bs ≡ some b = ground arith in
      rw miss (omega (arith, held-remove h id bs b later))
]

module _ {W : Type 0} where
  -- Of each object, as many were made as were closed and stand among the buffers together.
  unfoldable pub OwnsObjects : Server W → Type 0
  OwnsObjects s = (h : ℕ) → made h s.events ≡ gone h s.events + held h s.buffers

  Change-OwnsObjects :
      {asks : OpType → ℕ → Type 0} {s u : Server W}
      → Change asks s u
      → OwnsObjects s
      → OwnsObjects u
  unfolding OwnsObjects
  Change-OwnsObjects {asks} {s} {u} (same k n) own h = omega (arith, own h, n h, ap (held h) k)
  Change-OwnsObjects {asks} {s} {u} (added id b p f k n) own h =
      let more : held h ((id, b) ∷ s.buffers) ≡ made_by h (created b.handle) + held h s.buffers =
        unfold held in refl in
      omega (arith, own h, n h, ap (held h) k, more)
  Change-OwnsObjects {asks} {s} {u} (dropped id b p f k n) own h =
      omega (arith, own h, n h, ap (held h) k, held-remove h id s.buffers b f)

module _ {W : Type 0} (abi : Abi) (api : DrmCalls W) where
  -- What calls lead to, one after the other, each of which returns.
  pub data Reach (s : Server W) : Server W → Type 0 where
    start : Reach s s
    call : {t u : Server W} → Reach s t → (c : Call) → step abi api c t ≡ ok tt u → Reach s u

  pub reached_by : (t u : Server W) (c : Call) → step abi api c t ≡ ok tt u → Change (Asks t c) t u
  reached_by t u c e = subst (AfterOk (λ _ v. Change (Asks t c) t v)) e (step-Change abi api c t)

  -- After any calls of a client that return, and however often a sleeping task has gone on, each
  -- object that the kernel made for the session and has not closed stands in the session's buffers,
  -- as often as it was made, and no other does: if this holds at first, as in a session without
  -- buffers that has made no object. A call that does not return is not among them: one during
  -- which an exception leaves the task, as where an id is allocated that is taken, or attaching
  -- the memory of a new object fails.
  pub Reach-OwnsObjects : {s u : Server W} → OwnsObjects s → Reach s u → OwnsObjects u
  Reach-OwnsObjects own start = own
  Reach-OwnsObjects own (call {t} {u} r c e) =
      Change-OwnsObjects (reached_by t u c e) (Reach-OwnsObjects own r)
