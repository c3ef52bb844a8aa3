-- ===== src/Gpu/Server/Ids.antt =====
-- A session seen as a table of the client's buffers: which ids are taken, and by which object.
use genode_imx.Base.{
  ℕ, ◌≡◌, Option, none, some, ◌==◌, if◌then◌else◌, List, [], ◌∷◌, sym, ap, ◌∙◌, arith, inl, inr,
  Bool-cases, subst,
}
use genode_imx.Base.Run.{ok}
use genode_imx.Gpu.Abi.{Abi}
use genode_imx.Gpu.Server.State.{OpType, alloc, free, Buffer, DrmCalls, Server, find, remove}
use genode_imx.Gpu.Server.Frame.{Change, same, added, dropped}
use genode_imx.Gpu.Server.Calls.{Call, Asks, step}
use genode_imx.Gpu.Server.Handles.{Reach, start, call, reached_by}

-- No id is taken twice.
pub AreDistinct : List (ℕ × Buffer) → Type 0
AreDistinct [] = Unit {0}
AreDistinct ((id, b) ∷ bs) = (find id bs ≡ none) × AreDistinct bs

-- The table that the client sees.
abbrev pub Table : Type 0
Table = ℕ → Option Buffer

abbrev pub table : {W : Type 0} → Server W → Table
table s id = find id s.buffers

-- The moves of a table that a call may ask for: it stays; a free id is taken, which the call asked
-- to allocate; or a taken one is given up, which it asked to free.
pub data Move (asks : OpType → ℕ → Type 0) (v w : Table) : Type 0 where
  keep : ((j : ℕ) → w j ≡ v j) → Move asks v w
  take_id :
      (id : ℕ) (b : Buffer)
      → asks alloc id
      → v id ≡ none
      → ((j : ℕ) → w j ≡ (if id == j then some b else v j))
      → Move asks v w
  drop_id :
      (id : ℕ) (b : Buffer)
      → asks free id
      → v id ≡ some b
      → ((j : ℕ) → w j ≡ (if id == j then none else v j))
      → Move asks v w

find-remove :
    (id j : ℕ) (bs : List (ℕ × Buffer))
    → AreDistinct bs
    → find j (remove id bs) ≡ (if id == j then none else find j bs)
unfolding find remove AreDistinct
find-remove id j [] d = ground arith
find-remove id j ((k, b) ∷ bs) (fresh, d) = ground (arith, find-remove id j bs d)

remove-AreDistinct : (id : ℕ) (bs : List (ℕ × Buffer)) → AreDistinct bs → AreDistinct (remove id bs)
unfolding remove AreDistinct
remove-AreDistinct id [] d = tt
remove-AreDistinct id ((k, b) ∷ bs) (fresh, d) = elim (Bool-cases (k == id)) [
  | inl hit ↦ rw hit d
  | inr miss ↦ rw miss (find-remove id k bs d ∙ ground (arith, fresh), remove-AreDistinct id bs d)
]

module _ {W : Type 0} {asks : OpType → ℕ → Type 0} {s u : Server W} where
  Change-Move :
      Change asks s u
      → AreDistinct s.buffers
      → Move asks (table s) (table u) × AreDistinct u.buffers
  unfolding find AreDistinct
  Change-Move (same k n) d = (keep (λ j. ap (find j) k), subst AreDistinct (sym k) d)
  Change-Move (added id b p f k n) d =
      (take_id id b p f (λ j. ap (find j) k), subst AreDistinct (sym k) (f, d))
  Change-Move (dropped id b p f k n) d = (
    drop_id id b p f (λ j. ap (find j) k ∙ find-remove id j s.buffers d),
    subst AreDistinct (sym k) (remove-AreDistinct id s.buffers d),
  )

module _ {W : Type 0} (abi : Abi) (api : DrmCalls W) where
  Reach-AreDistinct :
      {s u : Server W} → AreDistinct s.buffers → Reach abi api s u → AreDistinct u.buffers
  Reach-AreDistinct d start = d
  Reach-AreDistinct d (call {t} {u} r c e) =
      (Change-Move (reached_by abi api t u c e) (Reach-AreDistinct d r)).1

  -- The buffers of a session are a table by id, which changes only as the calls ask: from a state
  -- without buffers on, whatever calls have returned before, a call that returns leaves the table
  -- as it is; or it enters one buffer under an id that was free, which this call asks to allocate;
  -- or it takes out the buffer of an id, which this call asks to free; and all other ids keep
  -- theirs. A signal asks for what the pending request does; no other call changes the table.
  pub step-Move :
      {s t u : Server W} (c : Call)
      → s.buffers ≡ []
      → Reach abi api s t
      → step abi api c t ≡ ok tt u
      → Move (Asks t c) (table t) (table u)
  unfolding AreDistinct
  step-Move {s} {t} {u} c none_yet r e =
      (Change-Move (reached_by abi api t u c e)
        (Reach-AreDistinct (subst AreDistinct (sym none_yet) tt) r)).0
