-- ===== src/SdCard/Requests/Served.antt =====
-- What a session's requests turn into.
use genode_imx.Base.{
  ℕ, ℤ, pos, negsuc, ◌≢◌, zero, suc, ◌≡◌, ◌<◌, true, false, Option, none, some, refl, sym, ap, ◌∙◌,
  ◌↔◌, inl, inr, Bool-cases, Ptr, List, [], ◌∷◌, ◌++◌, append_assoc, append-nil, arith, length,
  is_nonzero,
}
use genode_imx.SdCard.Io.{
  Op, read, write, sync, other, Request, Event, submit_bio, ack_request, print_flush_failed,
  BlockApi, Io, in_world,
}
use genode_imx.SdCard.Requests.{request_bio, block_request, block_sync, serve, handle_requests}

module _ {W : Type 0} (api : BlockApi W) (session bdev : Ptr) where
  -- The API hands out these requests in turn, each served before the next is asked for, and then
  -- none. Each stands with the world that it was handed out in.
  pub data Drained : Io W → List (Request × W) → Io W → Type 0 where
    empty :
        {io : Io W} {w : W}
        → api.request_by_session session io.world ≡ (none, w)
        → Drained io [] (in_world w io)
    next :
        {io out : Io W} {w : W} {r : Request} {rs : List (Request × W)}
        → api.request_by_session session io.world ≡ (some r, w)
        → Drained (serve api session bdev r r.op (in_world w io)) rs out
        → Drained io ((r, w) ∷ rs) out

  -- What the calls for these requests must be: a bio for each read and write, an answer for each
  -- flush by what `blkdev_issue_flush` returns, 0 for success, in the world that the request was
  -- handed out in, and nothing for an operation that the driver does not know.
  pub data Answers : List (Request × W) → List Event → Type 0 where
    nothing : Answers [] []
    reads :
        {r : Request} {w : W} {rs : List (Request × W)} {es : List Event}
        → r.op ≡ read
        → Answers rs es
        → Answers ((r, w) ∷ rs) (submit_bio (request_bio api bdev r false) ∷ es)
    writes :
        {r : Request} {w : W} {rs : List (Request × W)} {es : List Event}
        → r.op ≡ write
        → Answers rs es
        → Answers ((r, w) ∷ rs) (submit_bio (request_bio api bdev r true) ∷ es)
    flushes :
        {r : Request} {w : W} {rs : List (Request × W)} {es : List Event}
        → r.op ≡ sync
        → (api.issue_flush bdev w).0 ≡ pos 0
        → Answers rs es
        → Answers ((r, w) ∷ rs) (ack_request session r.addr_of true ∷ es)
    fails_flush :
        {r : Request} {w : W} {rs : List (Request × W)} {es : List Event}
        → r.op ≡ sync
        → (api.issue_flush bdev w).0 ≢ pos 0
        → Answers rs es
        → Answers ((r, w) ∷ rs) (print_flush_failed ∷ ack_request session r.addr_of false ∷ es)
    ignores :
        {r : Request} {w : W} {rs : List (Request × W)} {es : List Event}
        → (n : ℕ) → r.op ≡ other n
        → Answers rs es
        → Answers ((r, w) ∷ rs) es

  -- One round, by what the API hands out.
  pub handle_requests-none :
      (n : ℕ) (io : Io W) {w : W}
      → api.request_by_session session io.world ≡ (none, w)
      → handle_requests api (suc n) session bdev io ≡ some (in_world w io)
  unfolding handle_requests
  handle_requests-none n io e = rw (e, handle_requests) (rw e)

  pub handle_requests-some :
      (n : ℕ) (io : Io W) {w : W} {r : Request}
      → api.request_by_session session io.world ≡ (some r, w)
      → handle_requests api (suc n) session bdev io
        ≡ handle_requests api n session bdev (serve api session bdev r r.op (in_world w io))
  unfolding handle_requests
  handle_requests-some n io e = rw (e, handle_requests) (rw e)

  pub handle_requests-Drained :
      (n : ℕ) (io out : Io W)
      → handle_requests api n session bdev io ≡ some out
      → (rs : List (Request × W)) × Drained io rs out × (length rs < n)
  handle_requests-Drained zero io out h = unfold handle_requests in absurd (ground arith)
  handle_requests-Drained (suc n) io out h =
      round (api.request_by_session session io.world) refl (handle_requests-Drained n)
    where
      round :
          (q : Option Request × W)
          → api.request_by_session session io.world ≡ q
          → ((io' out' : Io W)
              → handle_requests api n session bdev io' ≡ some out'
              → (rs : List (Request × W)) × Drained io' rs out' × (length rs < n))
          → (rs : List (Request × W)) × Drained io rs out × (length rs < suc n)
      round (none, w) e rec =
          let same : in_world w io ≡ out = cc (handle_requests-none n io e) in
          ([], rw (← same) (empty e), omega arith)
      round (some r, w) e rec =
          let (rs, d, few) =
            rec (serve api session bdev r r.op (in_world w io)) out
              (sym (handle_requests-some n io e) ∙ h) in
          ((r, w) ∷ rs, next e d, omega arith)

  -- With more rounds than requests the loop ends, in the state that draining leads to.
  pub Drained-handle_requests :
      (n : ℕ) {io out : Io W} {rs : List (Request × W)}
      → Drained io rs out
      → length rs < n
      → handle_requests api n session bdev io ≡ some out
  Drained-handle_requests zero d few = absurd (omega arith)
  Drained-handle_requests (suc n) (empty {io} e) few = handle_requests-none n io e
  Drained-handle_requests (suc n) (next {io} e d) few =
      handle_requests-some n io e ∙ Drained-handle_requests n d (omega arith)

  abbrev Causes : Request → Op → Io W → Type 0
  Causes r o io =
      (es : List Event) × ((serve api session bdev r o io).events ≡ io.events ++ es)
      × ((rs : List (Request × W)) (fs : List Event)
          → Answers rs fs
          → Answers ((r, io.world) ∷ rs) (es ++ fs))

  zero_of : (z : ℤ) → is_nonzero z ≡ false → z ≡ pos 0
  zero_of (pos zero) h = refl
  zero_of (pos (suc n)) h = absurd (ground arith)
  zero_of (negsuc n) h = absurd (ground arith)

  nonzero_of : (z : ℤ) → is_nonzero z ≡ true → z ≢ pos 0
  nonzero_of z h e = absurd (ground arith)

  sync-Causes : (r : Request) (io : Io W) → r.op ≡ sync → Causes r sync io
  unfolding serve block_sync
  sync-Causes r io e = elim (Bool-cases (is_nonzero (api.issue_flush bdev io.world).0)) [
    | inl failed ↦ rw failed (
      print_flush_failed ∷ ack_request session r.addr_of false ∷ [],
      append_assoc io.events (print_flush_failed ∷ []) (ack_request session r.addr_of false ∷ []),
      λ rs fs a. fails_flush e (nonzero_of _ failed) a,
    )
    | inr done ↦
        rw done
          (ack_request session r.addr_of true ∷ [], refl, λ rs fs a. flushes e (zero_of _ done) a)
  ]

  -- The calls that one request causes, by its operation.
  serve-Causes : (r : Request) (o : Op) (io : Io W) → r.op ≡ o → Causes r o io
  unfolding serve
  serve-Causes r read io e = (
    submit_bio (request_bio api bdev r false) ∷ [],
    unfold block_request in refl,
    λ rs fs a. reads e a,
  )
  serve-Causes r write io e = (
    submit_bio (request_bio api bdev r true) ∷ [],
    unfold block_request in refl,
    λ rs fs a. writes e a,
  )
  serve-Causes r sync io e = sync-Causes r io e
  serve-Causes r (other n) io e = ([], sym (append-nil io.events), λ rs fs a. ignores n e a)

  -- Draining a session answers each of its requests, in their order, and makes no other call.
  pub Drained-Answers :
      {io out : Io W} {rs : List (Request × W)}
      → Drained io rs out
      → (es : List Event) × (out.events ≡ io.events ++ es) × Answers rs es
  Drained-Answers (empty {io} e) = ([], sym (append-nil io.events), nothing)
  Drained-Answers (next {io} {w = w} {r = r} {rs = rs} e d) =
      let (fs, later, answered) = Drained-Answers d in
      let (es, now, extend) = serve-Causes r r.op (in_world w io) refl in
      (
        es ++ fs,
        later ∙ ap (λ l. l ++ fs) now ∙ append_assoc io.events es fs,
        extend rs fs answered,
      )

-- If the loop of `block_handle_session` returns, it has taken requests from the session until the
-- API had none left, fewer than its rounds, and its calls are, in the requests' order: for a read
-- or write the submission of that request's bio, for a flush its acknowledgement with the
-- success that `blkdev_issue_flush` reports for it, after a message if it failed, and for any
-- other operation nothing. Conversely, with
-- more rounds than requests it returns in the state that draining the session leads to.
pub handle_requests_lem :
    {W : Type 0} (api : BlockApi W) (session bdev : Ptr) (n : ℕ) (io out : Io W)
    → (handle_requests api n session bdev io ≡ some out) ↔ (
        (rs : List (Request × W)) × Drained api session bdev io rs out
        × (length rs < n)
        × ((es : List Event) × (out.events ≡ io.events ++ es) × Answers api session bdev rs es))
handle_requests_lem api session bdev n io out = (
  λ h.
      let (rs, d, few) = handle_requests-Drained api session bdev n io out h in
      (rs, d, few, Drained-Answers api session bdev d),
  λ (rs, d, few, _). Drained-handle_requests api session bdev n d few,
)
