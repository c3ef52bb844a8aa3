-- ===== src/Gpu/Server/Frame.antt =====
-- What one turn of the task can do to the buffers of a session.
use genode_imx.Base.{
  ℕ, zero, suc, ◌+◌, ◌%◌, ◌^◌, ◌≡◌, ℤ, false, not, ◌&&◌, none, some, ◌==◌, if◌then◌else◌,
  is_nonzero, Ptr, null, List, [], ◌∷◌, ◌++◌, refl, sym, ap, ◌∙◌, arith, inl, inr, Option-cases,
}
use genode_imx.Base.Run.{
  Run, ok, AfterOk, AfterOk-and_then, AfterOk-if, AfterOk-if_cmd, AfterOk-option,
}
use genode_imx.Gpu.Abi.{Abi}
use genode_imx.Gpu.Ioctl.{lx_drm_gem_submit_bo_handle, lx_drm_gem_submit_bo_count}
use genode_imx.Gpu.Server.State.{
  OpType, invalid, alloc, free, map, unmap, exec, wait, Request, Buffer, Event, created, closed,
  flushed, notified, DrmCalls, Server, find, remove, managed, local_addr, lx_mapping_attrs,
  is_valid, no_request,
}
use genode_imx.Gpu.Server.Task.{
  insert, alloc_made, do_alloc, do_free, translate, do_exec, do_wait, do_map, do_unmap, dispatch,
  run_task,
}

-- How often a handle was made and closed.
abbrev pub made_by : ℕ → Event → ℕ
made_by h (created i) = if i == h then 1 else 0
made_by h e = 0

abbrev pub gone_by : ℕ → Event → ℕ
gone_by h (closed i) = if i == h then 1 else 0
gone_by h e = 0

unfoldable pub made : ℕ → List Event → ℕ
made h [] = 0
made h (e ∷ es) = made_by h e + made h es

unfoldable pub gone : ℕ → List Event → ℕ
gone h [] = 0
gone h (e ∷ es) = gone_by h e + gone h es

pub made-snoc :
    (h : ℕ) (es : List Event) (e : Event) → made h (es ++ e ∷ []) ≡ made h es + made_by h e
unfolding made
made-snoc h [] e = omega arith
made-snoc h (d ∷ es) e = omega (arith, made-snoc h es e)

pub gone-snoc :
    (h : ℕ) (es : List Event) (e : Event) → gone h (es ++ e ∷ []) ≡ gone h es + gone_by h e
unfolding gone
gone-snoc h [] e = omega arith
gone-snoc h (d ∷ es) e = omega (arith, gone-snoc h es e)

-- As many objects were made as closed between the two.
abbrev pub Steady : List Event → List Event → Type 0
Steady es fs = (h : ℕ) → made h fs + gone h es ≡ made h es + gone h fs

module _ {W : Type 0} (asks : OpType → ℕ → Type 0) where
  -- The buffers stay and no object is lost or made; or allocating with this id was asked for, the id
  -- is new, and one buffer with it and a new object is added; or freeing this id was asked for, and
  -- its buffer is dropped and its object closed.
  pub data Change (s u : Server W) : Type 0 where
    same : u.buffers ≡ s.buffers → Steady s.events u.events → Change s u
    added :
        (id : ℕ) (b : Buffer)
        → asks alloc id
        → find id s.buffers ≡ none
        → u.buffers ≡ (id, b) ∷ s.buffers
        → ((h : ℕ)
            → made h u.events + gone h s.events
              ≡ made h s.events + gone h u.events + made_by h (created b.handle))
        → Change s u
    dropped :
        (id : ℕ) (b : Buffer)
        → asks free id
        → find id s.buffers ≡ some b
        → u.buffers ≡ remove id s.buffers
        → ((h : ℕ)
            → made h u.events + gone h s.events + gone_by h (closed b.handle)
              ≡ made h s.events + gone h u.events)
        → Change s u

module _ {W : Type 0} {asks : OpType → ℕ → Type 0} where
  -- What surrounds a change and leaves buffers and events alone does not matter.
  pub Change-frame :
      {s s' u u' : Server W}
      → s.buffers ≡ s'.buffers
      → s.events ≡ s'.events
      → u.buffers ≡ u'.buffers
      → u.events ≡ u'.events
      → Change asks s u
      → Change asks s' u'
  Change-frame b e b' e' (same k n) = same (sym b' ∙ k ∙ b) (rw (← e, ← e') n)
  Change-frame b e b' e' (added id x p f k n) =
      added id x p (rw (← b) f) (sym b' ∙ k ∙ ap (λ l. (id, x) ∷ l) b) (rw (← e, ← e') n)
  Change-frame b e b' e' (dropped id x p f k n) =
      dropped id x p (rw (← b) f) (sym b' ∙ k ∙ ap (remove id) b) (rw (← e, ← e') n)

  pub Change-refl : (s : Server W) → Change asks s s
  Change-refl s = same refl (λ h. refl)

module _ {W : Type 0} (abi : Abi) (api : DrmCalls W) (asks : OpType → ℕ → Type 0) where
  abbrev After : {A : Type 0} → Server W → A → Server W → Type 0
  After s a u = Change asks s u

  told :
      (s : Server W) (e : Event)
      → ((h : ℕ) → (made_by h e ≡ 0) × (gone_by h e ≡ 0))
      → Steady s.events (s.events ++ e ∷ [])
  told s e quiet h = omega (arith, quiet h, made-snoc h s.events e, gone-snoc h s.events e)

  do_free-Change :
      (r : Request) (s : Server W) → asks free r.id → AfterOk (After s) (do_free abi api r s)
  unfolding do_free
  do_free-Change r s p =
      AfterOk-option (After s) (find r.id s.buffers) _ _ (λ e. Change-refl s)
        (λ b e. dropped r.id b p e refl (λ h.
          omega (
            arith,
            made-snoc h s.events (closed b.handle),
            gone-snoc h s.events (closed b.handle),
          )))

  do_wait-Change : (r : Request) (s : Server W) → AfterOk (After s) (do_wait abi api r s)
  unfolding do_wait
  do_wait-Change r s =
      AfterOk-if_cmd (After s) (is_nonzero (api.wait_fence s.drm (r.seqno % 2 ^ 32) s.world).0) _ _
        _ (λ e. same refl (told s notified (λ h. (refl, refl))))
        (λ e. same refl (told s notified (λ h. (refl, refl))))

  find_of_unmanaged : (id : ℕ) (bs : List (ℕ × Buffer)) → managed id bs ≡ false → find id bs ≡ none
  find_of_unmanaged id bs h = elim (Option-cases (find id bs)) [
    | inl e ↦ e
    | inr (b, e) ↦ absurd (ground (arith, e))
  ]

  -- `insert` adds a buffer for an object that was made just before.
  insert-Change :
      (id handle cap : ℕ) (s u : Server W)
      → asks alloc id
      → u.buffers ≡ s.buffers
      → u.events ≡ s.events ++ created handle ∷ []
      → AfterOk (λ _ v. Change asks s v) (insert abi api id handle cap u)
  unfolding insert
  insert-Change id handle cap s u p kept made_one =
      AfterOk-option _ (api.attach cap u.world).0 _ _ (λ e. tt)
        λ place e.
          AfterOk-if _ (managed id u.buffers) _ _ (λ t. tt)
            λ free_id.
              added id _ p (ap (find id) (sym kept) ∙ find_of_unmanaged id u.buffers free_id)
                (ap
                  (λ l.
                    (
                      id,
                      record {
                        handle = handle;
                        cap = cap;
                        local_addr = place.0;
                        ds_size = place.1;
                      },
                    )
                    ∷ l)
                  kept)
                λ h. rw made_one (
                  omega (
                    arith,
                    made-snoc h s.events (created handle),
                    gone-snoc h s.events (created handle),
                  ))

  do_alloc-Change :
      (r : Request) (s : Server W) → asks alloc r.id → AfterOk (After s) (do_alloc abi api r s)
  unfolding do_alloc alloc_made
  do_alloc-Change r s p =
      let (err, handle, w) = api.gem_new s.drm r.size s.world in
      let (err', offset, w') = api.gem_info s.drm handle w in
      AfterOk-if_cmd (After s) (is_nonzero err) _ _ _ (λ e. same refl (λ h. refl))
        λ e.
          AfterOk-if_cmd (After s) (is_nonzero err') _ _ _
            (λ e'. same refl λ h. omega (
              arith,
              made-snoc h s.events (created handle),
              gone-snoc h s.events (created handle),
              made-snoc h (s.events ++ created handle ∷ []) (closed handle),
              gone-snoc h (s.events ++ created handle ∷ []) (closed handle),
            ))
            λ e'.
              AfterOk-and_then (λ _ u. Change asks s u) (After s)
                (insert abi api r.id handle (api.lookup_cap s.drm offset r.size w').0 _) _
                (insert-Change r.id handle _ s _ p refl refl) (λ a u c. c)

  abbrev Still : {A : Type 0} → Server W → A → Server W → Type 0
  Still s a u = (u.buffers ≡ s.buffers) × Steady s.events u.events

  translate-Still :
      (n i : ℕ) (submit : Ptr) (s : Server W) → AfterOk (Still s) (translate abi api n i submit s)
  unfolding translate
  translate-Still zero i submit s = (refl, λ h. refl)
  translate-Still (suc n) i submit s =
      let place = lx_drm_gem_submit_bo_handle abi submit i s.mem in
      AfterOk-if (Still s) (place == null) _ _ (λ e. (refl, λ h. refl))
        λ e.
          AfterOk-option (Still s) (find (s.mem place) s.buffers) _ _ (λ f. (refl, λ h. refl))
            λ b f. weaken b _ (translate-Still n (i + 1) submit _)
    where
      weaken :
          (b : Buffer) (run : Run (Server W) ℤ)
          → AfterOk
              (λ a u.
                (u.buffers ≡ s.buffers)
                × Steady (s.events ++ flushed b.local_addr b.ds_size ∷ []) u.events)
              run
          → AfterOk (Still s) run
      weaken b (ok a u) (k, n') = (
        k,
        λ h. omega (arith, n' h, told s (flushed b.local_addr b.ds_size) (λ g. (refl, refl)) h),
      )
      weaken b _ q = tt

  do_exec-Change : (r : Request) (s : Server W) → AfterOk (After s) (do_exec abi api r s)
  unfolding do_exec
  do_exec-Change r s =
      let submit = local_addr r.id s.buffers in
      AfterOk-if_cmd (After s) (submit == null) _ _ _ (λ e. Change-refl s)
        λ e.
          AfterOk-and_then (Still s) (After s)
            (translate abi api (lx_drm_gem_submit_bo_count abi submit s.mem) 0 submit s) _
            (translate-Still _ 0 submit s)
            λ err t (k, n).
              AfterOk-if_cmd (After s) (is_nonzero err) _ _ _ (λ e'. same k n)
                λ e'.
                  AfterOk-if_cmd (After s)
                    (is_nonzero (api.gem_submit t.drm submit t.mem t.world).0) _ _ _ (λ f. same k n)
                    (λ f. same k n)

  do_map-Change : (r : Request) (s : Server W) → AfterOk (After s) (do_map abi api r s)
  unfolding do_map
  do_map-Change r s =
      AfterOk-option (After s) (find r.id s.buffers) _ _ (λ e. Change-refl s)
        λ b e.
          AfterOk-if_cmd (After s)
            (is_nonzero (api.cpu_prep s.drm b.handle (lx_mapping_attrs r) s.world).0) _ _ _
            (λ f. same refl (told s notified (λ h. (refl, refl))))
            (λ f. same refl (told s notified (λ h. (refl, refl))))

  do_unmap-Change : (r : Request) (s : Server W) → AfterOk (After s) (do_unmap abi api r s)
  unfolding do_unmap
  do_unmap-Change r s =
      AfterOk-option (After s) (find r.id s.buffers) _ _ (λ e. Change-refl s)
        (λ b e. same refl (λ h. refl))

  dispatch-Change :
      (t : OpType) (r : Request) (s : Server W)
      → asks t r.id
      → AfterOk (After s) (dispatch abi api t r s)
  unfolding dispatch
  dispatch-Change alloc r s p = do_alloc-Change r s p
  dispatch-Change free r s p = do_free-Change r s p
  dispatch-Change exec r s p = do_exec-Change r s
  dispatch-Change wait r s p = do_wait-Change r s
  dispatch-Change map r s p = do_map-Change r s
  dispatch-Change unmap r s p = do_unmap-Change r s
  dispatch-Change invalid r s p = Change-refl s

  -- A turn of the task makes one change at most, as the pending request asks.
  pub run_task-Change :
      (s : Server W)
      → asks s.pending.type s.pending.id
      → AfterOk (λ _ u. Change asks s u) (run_task abi api s)
  unfolding run_task
  run_task-Change s p =
      let begun = record s { completed = if s.blocked then s.completed else no_request } in
      AfterOk-if_cmd (λ _ u. Change asks s u) (not (s.linked && is_valid s.pending.type)) _ _ _
        (λ e. Change-refl s)
        λ e.
          AfterOk-if_cmd (λ _ u. Change asks s u) (api.blocks s.pending s.world) _ _ begun
            (λ f. same refl (λ h. refl))
            λ f.
              AfterOk-and_then (After begun) (λ _ u. Change asks s u)
                (dispatch abi api s.pending.type s.pending begun) _
                (dispatch-Change s.pending.type s.pending begun p)
                λ r u c. Change-frame refl refl refl refl c
