-- ===== src/Gpu/Server/Life.antt =====
-- The end of a GPU session.
use mathlib.Core.List.{Perm}
use mathlib.Core.List.Perm
use genode_imx.Base.{
  ℕ, zero, suc, ◌+◌, ◌%◌, ◌^◌, ◌≡◌, ◌≢◌, ◌<◌, true, false, null, List, [], ◌∷◌, ◌++◌, length, refl,
  some, ◌==◌, Bool-cases, inl, inr, sym, ap, ◌∙◌, append_assoc, append-nil, arith,
}
use genode_imx.Base.Run.{ok, fault, waiting}
use genode_imx.Gpu.Abi.{Abi}
use genode_imx.Gpu.Server.State.{
  invalid, free, Request, no_request, is_valid, Buffer, Event, closed, drm_closed, DrmCalls, Server,
  find, remove,
}
use genode_imx.Gpu.Server.Task.{do_free, dispatch, run_task, open_drm, close_drm}
use genode_imx.Gpu.Server.Rpc.{
  managed_id, create, schedule_request, free_vram, free_buffers, local_close, destroy,
}

module _ {W : Type 0} (abi : Abi) (api : DrmCalls W) where
  -- A session that was opened and has scheduled no request yet cannot be closed: the destructor
  -- reads through the task's pointer to the pending request, which is NULL.
  pub destroy-open_drm :
      (params blank : List ℕ) (any : List (ℕ × Buffer) → ℕ) (n : ℕ) (s t : Server W)
      → s.linked ≡ false
      → open_drm abi api params blank s ≡ ok true t
      → destroy abi api any n t ≡ fault
  unfolding open_drm destroy
  destroy-open_drm params blank any n s t fresh opened = ground arith

  -- While a request is pending, a call that frees a buffer changes nothing but the count of tags.
  free_vram-busy :
      (id : ℕ) (s : Server W)
      → is_valid s.pending.type ≡ true
      → free_vram abi api id s ≡ ok tt (record s { tag_counter = (s.tag_counter + 1) % 2 ^ 64 })
  unfolding free_vram create schedule_request
  free_vram-busy id s busy = ground arith

  -- Closed while a request is pending, as one for which the task still waits, a session that has a
  -- buffer tries to free this buffer for ever: no number of rounds is enough.
  pub free_buffers_hangs :
      (any : List (ℕ × Buffer) → ℕ) (n id : ℕ) (b : Buffer) (bs : List (ℕ × Buffer)) (s : Server W)
      → is_valid s.pending.type ≡ true
      → s.buffers ≡ (id, b) ∷ bs
      → free_buffers abi api any n s ≡ waiting
  unfolding free_buffers
  free_buffers_hangs any zero id b bs s busy full = refl
  free_buffers_hangs any (suc n) id b bs s busy full =
      let counted = record s { tag_counter = (s.tag_counter + 1) % 2 ^ 64 } in
      let again : free_buffers abi api any n counted ≡ waiting =
        free_buffers_hangs any n id b bs counted busy full in
      ground (arith, free_vram-busy (any ((id, b) ∷ bs)) s busy)

  -- The state that freeing a buffer leaves.
  abbrev freed : ℕ → Buffer → Server W → Server W
  freed id b s =
      let q = record no_request {
        type = free;
        id = id;
        readable = true;
        success = true;
        tag = (s.tag_counter + 1) % 2 ^ 64;
      } in
      record s {
        world = api.gem_close s.drm b.handle s.world;
        buffers = remove id s.buffers;
        pending = no_request;
        completed = q;
        linked = true;
        blocked = false;
        tag_counter = (s.tag_counter + 1) % 2 ^ 64;
        events = s.events ++ closed b.handle ∷ [];
      }

  -- The kernel frees an object at once.
  abbrev pub FreesAtOnce : Type 0
  FreesAtOnce = (q : Request) (w : W) → q.type ≡ free → api.blocks q w ≡ false

  -- The id space gives a buffer that it holds, as long as it holds any.
  abbrev pub PicksOne : (List (ℕ × Buffer) → ℕ) → Type 0
  PicksOne any =
      (x : ℕ × Buffer) (bs : List (ℕ × Buffer))
      → (b : Buffer) × (find (any (x ∷ bs)) (x ∷ bs) ≡ some b)

  free_vram-freed :
      (id : ℕ) (b : Buffer) (s : Server W)
      → FreesAtOnce
      → s.pending.type ≡ invalid
      → find id s.buffers ≡ some b
      → free_vram abi api id s ≡ ok tt (freed id b s)
  unfolding free_vram create schedule_request managed_id run_task dispatch do_free
  free_vram-freed id b s at_once idle found = ground (
    arith,
    at_once
        (record no_request {
          type = free;
          id = id;
          readable = true;
          tag = (s.tag_counter + 1) % 2 ^ 64;
        })
        s.world refl,
  )

  -- The closings of the buffers' objects.
  pub closings : List (ℕ × Buffer) → List Event
  closings [] = []
  closings ((id, b) ∷ bs) = closed b.handle ∷ closings bs

  closings-remove :
      (id : ℕ) (bs : List (ℕ × Buffer)) (b : Buffer)
      → find id bs ≡ some b
      → Perm (closed b.handle ∷ closings (remove id bs)) (closings bs)
  unfolding closings find remove
  closings-remove id [] b e = absurd (ground arith)
  closings-remove id ((j, c) ∷ bs) b e = elim (Bool-cases (j == id)) [
    | inl hit ↦
        let same_one : c ≡ b = ground arith in
        rw (hit, same_one) (Perm.refl (closed b.handle ∷ closings bs))
    | inr miss ↦
        let later : find id bs ≡ some b = ground arith in
        rw miss (
          Perm.trans (Perm.swap _ _ _)
            (Perm.cons (closed c.handle) (closings-remove id bs b later)))
  ]

  length-remove :
      (id : ℕ) (bs : List (ℕ × Buffer)) (b : Buffer)
      → find id bs ≡ some b
      → length bs ≡ suc (length (remove id bs))
  unfolding find remove
  length-remove id [] b e = absurd (ground arith)
  length-remove id ((j, c) ∷ bs) b e = elim (Bool-cases (j == id)) [
    | inl hit ↦ rw hit (omega arith)
    | inr miss ↦
        let later : find id bs ≡ some b = ground arith in
        rw miss (omega (arith, length-remove id bs b later))
  ]

  -- The buffers are freed, each once, in the order in which the id space gives them.
  abbrev Frees : (any : List (ℕ × Buffer) → ℕ) → ℕ → List (ℕ × Buffer) → Server W → Type 0
  Frees any n bs s =
      (t : Server W) × (es : List Event) × (free_buffers abi api any n s ≡ ok tt t)
      × (t.buffers ≡ [])
      × (t.drm ≡ s.drm)
      × (t.blocked ≡ false)
      × (t.events ≡ s.events ++ es)
      × Perm es (closings bs)

  free_buffers-suc :
      (any : List (ℕ × Buffer) → ℕ) (n : ℕ) (x : ℕ × Buffer) (bs : List (ℕ × Buffer)) (b : Buffer)
      (s : Server W)
      → FreesAtOnce
      → s.pending.type ≡ invalid
      → s.buffers ≡ x ∷ bs
      → find (any (x ∷ bs)) (x ∷ bs) ≡ some b
      → free_buffers abi api any (suc n) s ≡ free_buffers abi api any n (freed (any (x ∷ bs)) b s)
  unfolding free_buffers
  free_buffers-suc any n x bs b s at_once idle full found =
      let there : find (any (x ∷ bs)) s.buffers ≡ some b = ap (find (any (x ∷ bs))) full ∙ found in
      ground (arith, free_vram-freed (any (x ∷ bs)) b s at_once idle there)

  free_buffers_lem :
      (any : List (ℕ × Buffer) → ℕ) (n : ℕ) (bs : List (ℕ × Buffer)) (s : Server W)
      → PicksOne any
      → FreesAtOnce
      → length bs < n
      → s.buffers ≡ bs
      → s.pending.type ≡ invalid
      → s.blocked ≡ false
      → Frees any n bs s
  unfolding free_buffers closings
  free_buffers_lem any zero bs s picks at_once few full idle awake = absurd (omega arith)
  free_buffers_lem any (suc n) [] s picks at_once few full idle awake =
      (s, [], ground arith, full, refl, awake, sym (append-nil s.events), Perm.refl [])
  free_buffers_lem any (suc n) (x ∷ bs) s picks at_once few full idle awake =
      let (b, found) = picks x bs in
      let id = any (x ∷ bs) in
      let shorter = length-remove id (x ∷ bs) b found in
      let (t, es, run, empty, same_drm, awake', told, order) =
        free_buffers_lem any n (remove id (x ∷ bs)) (freed id b s) picks at_once
          (omega (arith, shorter)) (ap (remove id) full) refl refl in
      (
        t,
        closed b.handle ∷ es,
        free_buffers-suc any n x bs b s at_once idle full found ∙ run,
        empty,
        same_drm,
        awake',
        told ∙ append_assoc s.events (closed b.handle ∷ []) es,
        Perm.trans (Perm.cons (closed b.handle) order) (closings-remove id (x ∷ bs) b found),
      )

  -- Where the kernel frees objects at once, a session that has been used, for which no request is
  -- pending, is closed completely, given more rounds than it has buffers: the object of each
  -- buffer is closed once, in whichever order the id space gives the buffers, and the DRM session
  -- after them, and no buffer is left. The id space gives a buffer as long as it holds one.
  pub destroy_lem :
      (any : List (ℕ × Buffer) → ℕ) (n : ℕ) (s : Server W)
      → PicksOne any
      → FreesAtOnce
      → length s.buffers < n
      → s.linked ≡ true
      → s.pending.type ≡ invalid
      → s.blocked ≡ false
      → s.drm ≢ null
      → (t : Server W) × (es : List Event) × (destroy abi api any n s ≡ ok true t)
        × (t.buffers ≡ [])
        × (t.drm ≡ null)
        × (t.events ≡ s.events ++ (es ++ drm_closed ∷ []))
        × Perm es (closings s.buffers)
  unfolding destroy local_close close_drm
  destroy_lem any n s picks at_once few used idle awake live =
      let (t, es, run, empty, same_drm, awake', told, order) =
        free_buffers_lem any n s.buffers s picks at_once few refl idle awake in
      (
        record t {
          world = api.drm_close t.drm t.world;
          drm = null;
          events = t.events ++ drm_closed ∷ [];
        },
        es,
        ground (arith, live),
        empty,
        refl,
        ap (λ l. l ++ drm_closed ∷ []) told ∙ append_assoc s.events es (drm_closed ∷ []),
        order,
      )
