-- ===== src/SdCard/Requests/Rounds.antt =====
-- The polling task always comes to its sleep.
use genode_imx.Base.{
  ℕ, zero, suc, ◌≡◌, ◌<◌, ◌≤◌, ◌≢◌, Bool, subst, ◌∙◌, Option, none, some, refl, inl, inr,
  Bool-cases, ◌==◌, Ptr, null, List, [], ◌∷◌, arith,
}
use genode_imx.SdCard.Store.{Gendisk}
use genode_imx.SdCard.Io.{
  Op, read, write, sync, other, Request, Bio, submit_bio, ack_request, print_flush_failed,
  task_schedule, BlockApi, Io, emit, in_world,
}
use genode_imx.SdCard.Requests.{
  block_request, block_sync, serve, handle_requests, block_handle_session, poll_disks,
  block_poll_turn,
}
use genode_imx.SdCard.Requests.Served.{
  Drained, handle_requests-none, handle_requests-some, handle_requests-Drained,
}

-- The API hands out finitely many requests while the driver runs: `left` bounds how many it still
-- does, with those that clients submit meanwhile. Each one that is handed out is one less, and no
-- call that serves a request makes them more; what comes while the task sleeps does not count.
pub record IsFinite {W : Type 0} (api : BlockApi W) (left : W → ℕ) : Type 0 where
  pub taken :
      (session : Ptr) (w w' : W) (r : Request)
      → api.request_by_session session w ≡ (some r, w')
      → left w' < left w
  pub asked :
      (session : Ptr) (w w' : W) → api.request_by_session session w ≡ (none, w') → left w' ≤ left w
  pub flushed : (bdev : Ptr) (w : W) → left (api.issue_flush bdev w).1 ≤ left w
  pub submitted : (b : Bio) (w : W) → left (api.perform (submit_bio b) w) ≤ left w
  pub acknowledged :
      (session request : Ptr) (success : Bool) (w : W)
      → left (api.perform (ack_request session request success) w) ≤ left w
  pub printed : (w : W) → left (api.perform print_flush_failed w) ≤ left w

module _ {W : Type 0} (api : BlockApi W) (left : W → ℕ) (finite : IsFinite api left) where
  block_sync-le : (bdev : Ptr) (io : Io W) → left (block_sync api bdev io).1.world ≤ left io.world
  unfolding block_sync
  block_sync-le bdev io =
      ground (arith, finite.flushed bdev io.world, finite.printed (api.issue_flush bdev io.world).1)

  serve-le :
      (session bdev : Ptr) (r : Request) (o : Op) (io : Io W)
      → left (serve api session bdev r o io).world ≤ left io.world
  unfolding serve block_request
  serve-le session bdev r read io = finite.submitted _ _
  serve-le session bdev r write io = finite.submitted _ _
  serve-le session bdev r sync io = omega (
    arith,
    block_sync-le bdev io,
    finite.acknowledged session r.addr_of (block_sync api bdev io).0
        (block_sync api bdev io).1.world,
  )
  serve-le session bdev r (other n) io = omega arith

  -- A run has given a result, in a world with no more requests than before.
  abbrev Returns : Option (Io W) → Io W → Type 0
  Returns run io = (out : Io W) × (run ≡ some out) × (left out.world ≤ left io.world)

  handle_requests-Returns :
      (n : ℕ) (session bdev : Ptr) (io : Io W)
      → left io.world < n
      → Returns (handle_requests api n session bdev io) io
  handle_requests-Returns zero session bdev io h = absurd (omega arith)
  handle_requests-Returns (suc n) session bdev io h =
      round (api.request_by_session session io.world) refl (handle_requests-Returns n session bdev)
    where
      round :
          (q : Option Request × W)
          → api.request_by_session session io.world ≡ q
          → ((io' : Io W)
              → left io'.world < n
              → Returns (handle_requests api n session bdev io') io')
          → Returns (handle_requests api (suc n) session bdev io) io
      round (none, w) e rec =
          (in_world w io, handle_requests-none api session bdev n io e, finite.asked session _ _ e)
      round (some r, w) e rec =
          let io' = serve api session bdev r r.op (in_world w io) in
          let fewer : left io'.world < left io.world =
            omega
              (arith, finite.taken session _ _ r e, serve-le session bdev r r.op (in_world w io)) in
          let (out, run, le) = rec io' (omega arith) in
          (out, handle_requests-some api session bdev n io e ∙ run, omega arith)

  -- The disks of the table are polled one after the other: an empty place and a disk without a
  -- session are passed over, and any other session is drained.
  pub data Polled (g : Ptr → Gendisk) : List Ptr → Io W → Io W → Type 0 where
    finished : {io : Io W} → Polled g [] io io
    no_disk : {io out : Io W} {ds : List Ptr} → Polled g ds io out → Polled g (null ∷ ds) io out
    no_session :
        {io out : Io W} {d : Ptr} {ds : List Ptr}
        → d ≢ null
        → api.session_by_name (g d).disk_name io.world ≡ null
        → Polled g ds io out
        → Polled g (d ∷ ds) io out
    drained :
        {io mid out : Io W} {d session : Ptr} {ds : List Ptr} {rs : List (Request × W)}
        → d ≢ null
        → api.session_by_name (g d).disk_name io.world ≡ session
        → session ≢ null
        → Drained api session (g d).part0 io rs mid
        → Polled g ds mid out
        → Polled g (d ∷ ds) io out

  -- The loop over the disks has ended, and was such a poll.
  abbrev Polls : ℕ → (Ptr → Gendisk) → List Ptr → Io W → Type 0
  Polls n g ds io = (out : Io W) × (poll_disks api n g ds io ≡ some out) × Polled g ds io out

  poll_disks-Polls :
      (n : ℕ) (g : Ptr → Gendisk) (ds : List Ptr) (io : Io W) → left io.world < n → Polls n g ds io
  unfolding poll_disks block_handle_session
  poll_disks-Polls n g [] io h = (io, refl, finished)
  poll_disks-Polls n g (d ∷ ds) io h = elim (Bool-cases (d == null)) [
    | inl is_null ↦
        let (out, run, polled) = poll_disks-Polls n g ds io h in
        let empty : null ≡ d = ground arith in
        (out, rw is_null run, subst (λ p. Polled g (p ∷ ds) io out) empty (no_disk polled))
    | inr not_null ↦
        let session = api.session_by_name (g d).disk_name io.world in
        elim (Bool-cases (session == null)) [
          | inl closed ↦
              let (out, run, polled) = poll_disks-Polls n g ds io h in
              (out, rw not_null (rw closed run), no_session (ground arith) (ground arith) polled)
          | inr live ↦
              let (mid, first, le) = handle_requests-Returns n session (g d).part0 io h in
              let (rs, d', few) = handle_requests-Drained api session (g d).part0 n io mid first in
              let (out, run, polled) = poll_disks-Polls n g ds mid (omega arith) in
              (
                out,
                rw not_null (rw live (rw first run)),
                drained (ground arith) refl (ground arith) d' polled,
              )
        ]
  ]

  -- Given more rounds for each session than the API hands out requests during a turn of the polling
  -- task, where clients may submit some of them meanwhile but only finitely many, the turn ends with
  -- the sleep of the task, after each disk of the table in its order was polled: every session was
  -- asked for requests, and each of them served, until the session had none left.
  pub block_poll_turn-returns :
      (n : ℕ) (g : Ptr → Gendisk) (ds : List Ptr) (io : Io W)
      → left io.world < n
      → (mid : Io W) × Polled g ds io mid
        × (block_poll_turn api n g ds io ≡ some (emit api task_schedule mid))
  unfolding block_poll_turn
  block_poll_turn-returns n g ds io h =
      let (mid, run, polled) = poll_disks-Polls n g ds io h in
      (mid, polled, rw (run, block_poll_turn) refl)
