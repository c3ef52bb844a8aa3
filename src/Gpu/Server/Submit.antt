-- ===== src/Gpu/Server/Submit.antt =====
-- What executing a buffer does to the list of objects in it.
use genode_imx.Base.{
  ℕ, zero, suc, ◌+◌, ◌≡◌, ◌≢◌, ◌<◌, ◌≤◌, pos, negsuc, none, some, ◌==◌, ==_of_ne, ==_refl, Ptr,
  null, ◌∷◌, [], ◌++◌, refl, sym, ap, ◌∙◌, arith, subst, inl, inr, Bool-cases,
}
use genode_imx.Base.Run.{ok}
use genode_imx.Gpu.Abi.{Abi}
use genode_imx.Gpu.Ioctl.{Memory, write, lx_drm_gem_submit_bo_handle}
use genode_imx.Gpu.Server.State.{Buffer, flushed, DrmCalls, Server, find}
use genode_imx.Gpu.Server.Task.{translate}

module _ {W : Type 0} (abi : Abi) (api : DrmCalls W) (submit : Ptr) (count : ℕ) where
  -- The places of the `count` handles in a buffer: no two are the same, none is NULL, and none is the
  -- field that tells where they are.
  pub record IsLayout (place : ℕ → ℕ) (mem : Memory) : Type 0 where
    pub at : (k : ℕ) → k < count → lx_drm_gem_submit_bo_handle abi submit k mem ≡ place k
    pub apart : (j k : ℕ) → j < count → k < count → place j ≡ place k → j ≡ k
    pub live : (k : ℕ) → k < count → place k ≢ null
    pub header : (k : ℕ) → k < count → place k ≢ submit + abi.submit_bos

  write-IsLayout :
      (place : ℕ → ℕ) (mem : Memory) (k v : ℕ)
      → k < count
      → IsLayout place mem
      → IsLayout place (write (place k) v mem)
  unfolding lx_drm_gem_submit_bo_handle
  write-IsLayout place mem k v low lay = record {
    at = λ j h. rw (==_of_ne (place k) (submit + abi.submit_bos) (lay.header k low)) (lay.at j h);
    apart = lay.apart;
    live = lay.live;
    header = lay.header;
  }

  -- The ids from index `i` on are replaced one by one, up to the first that is not known.
  pub record Replaced (place : ℕ → ℕ) (i n : ℕ) (s u : Server W) : Type 0 where
    pub inside :
        (k : ℕ) (b : Buffer)
        → i ≤ k
        → k < i + n
        → find (s.mem (place k)) s.buffers ≡ some b
        → u.mem (place k) ≡ b.handle
    pub outside : (a : ℕ) → ((k : ℕ) → i ≤ k → k < i + n → a ≢ place k) → u.mem a ≡ s.mem a
    pub kept : u.buffers ≡ s.buffers

  abbrev AreKnown : (place : ℕ → ℕ) (i n : ℕ) (s : Server W) → Type 0
  AreKnown place i n s =
      (k : ℕ) → i ≤ k → k < i + n → (b : Buffer) × (find (s.mem (place k)) s.buffers ≡ some b)

  abbrev replaced_one : ℕ → Buffer → Server W → Server W
  replaced_one p b s = record s {
    mem = write p b.handle s.mem;
    events = s.events ++ flushed b.local_addr b.ds_size ∷ [];
  }

  translate-suc :
      (place : ℕ → ℕ) (n i : ℕ) (b : Buffer) (s : Server W)
      → i < count
      → IsLayout place s.mem
      → find (s.mem (place i)) s.buffers ≡ some b
      → translate abi api (suc n) i submit s
        ≡ translate abi api n (i + 1) submit (replaced_one (place i) b s)
  unfolding translate
  translate-suc place n i b s low lay e = ground (arith, lay.at i low, lay.live i low)

  -- What was written at one place is not seen at another.
  written_elsewhere :
      (place : ℕ → ℕ) (i k : ℕ) (b : Buffer) (s : Server W)
      → i < count
      → k < count
      → IsLayout place s.mem
      → i ≢ k
      → (replaced_one (place i) b s).mem (place k) ≡ s.mem (place k)
  written_elsewhere place i k b s hi hk lay ne =
      rw (==_of_ne (place i) (place k) (λ same. ne (lay.apart i k hi hk same)))

  still_known :
      (place : ℕ → ℕ) (i n : ℕ) (b : Buffer) (s : Server W)
      → i + suc n ≤ count
      → IsLayout place s.mem
      → AreKnown place i (suc n) s
      → AreKnown place (i + 1) n (replaced_one (place i) b s)
  still_known place i n b s most lay known k low high =
      let (c, f) = known k (omega arith) (omega arith) in
      (
        c,
        ap (λ v. find v s.buffers)
              (written_elsewhere place i k b s (omega arith) (omega arith) lay (omega arith))
            ∙ f,
      )

  Replaced-suc :
      (place : ℕ → ℕ) (i n : ℕ) (b : Buffer) (s u : Server W)
      → i + suc n ≤ count
      → IsLayout place s.mem
      → find (s.mem (place i)) s.buffers ≡ some b
      → Replaced place (i + 1) n (replaced_one (place i) b s) u
      → Replaced place i (suc n) s u
  Replaced-suc place i n b s u most lay f rest = record {
    inside = λ k c low high g. elim (Bool-cases (i == k)) [
      | inl hit ↦
          let here : i ≡ k = ground arith in
          let same_one : b ≡ c =
            subst (λ j. find (s.mem (place j)) s.buffers ≡ some c → b ≡ c) here
              (λ g'. ground (arith, f, g')) g in
          let passed : u.mem (place i) ≡ (replaced_one (place i) b s).mem (place i) =
            rest.outside (place i) (λ j low' high' same.
              absurd (omega (arith, lay.apart i j (omega arith) (omega arith) same))) in
          subst (λ j. u.mem (place j) ≡ c.handle) here
            (passed ∙ rw (==_refl (place i)) (ap (λ (x : Buffer). x.handle) same_one))
      | inr miss ↦
          let other : i ≢ k = ground arith in
          rest.inside k c (omega arith) (omega arith) (
            ap (λ v. find v s.buffers)
              (written_elsewhere place i k b s (omega arith) (omega arith) lay other)
            ∙ g)
    ];
    outside = λ a away.
        rest.outside a (λ k low high. away k (omega arith) (omega arith))
        ∙ rw (==_of_ne (place i) a (λ same. away i (omega arith) (omega arith) (sym same)));
    kept = rest.kept;
  }

  translate-prefix :
      (total n m i : ℕ) (place : ℕ → ℕ) (s : Server W)
      → total ≡ n + m
      → i + n ≤ count
      → IsLayout place s.mem
      → AreKnown place i n s
      → (u : Server W) × (translate abi api total i submit s ≡ translate abi api m (i + n) submit u)
        × IsLayout place u.mem
        × Replaced place i n s u
  translate-prefix total zero m i place s e most lay known = (
    s,
    (let e1 : total ≡ m = omega arith in let e2 : i + 0 ≡ i = omega arith in rw (e1, e2)),
    lay,
    record { inside = λ k b l h f. absurd (omega arith); outside = λ a f. refl; kept = refl },
  )
  translate-prefix zero (suc n) m i place s e most lay known = absurd (omega arith)
  translate-prefix (suc total) (suc n) m i place s e most lay known =
      let (b, f) = known i (omega arith) (omega arith) in
      let s1 = replaced_one (place i) b s in
      let (u, run, lay', rest) =
        translate-prefix total n m (i + 1) place s1 (omega arith) (omega arith)
          (write-IsLayout place s.mem i b.handle (omega arith) lay)
          (still_known place i n b s most lay known) in
      let same : i + 1 + n ≡ i + suc n = omega arith in
      (
        u,
        translate-suc place total i b s (omega arith) lay f
            ∙ run
            ∙ ap (λ j. translate abi api m j submit u) same,
        lay',
        Replaced-suc place i n b s u most lay f rest,
      )

  -- If the places of the handles in a buffer are different from each other, from NULL and from the
  -- field of the header that says where they are (the client writes this field, and can choose it
  -- otherwise), and the ids of all objects are known, the loop replaces each id by its kernel handle
  -- and changes no other field, and reports no error.
  pub translate_lem :
      (n : ℕ) (place : ℕ → ℕ) (s : Server W)
      → n ≤ count
      → IsLayout place s.mem
      → ((k : ℕ) → k < n → (b : Buffer) × (find (s.mem (place k)) s.buffers ≡ some b))
      → (u : Server W) × (translate abi api n 0 submit s ≡ ok (pos 0) u) × Replaced place 0 n s u
  unfolding translate
  translate_lem n place s most lay known =
      let all : n ≡ n + 0 = omega arith in
      let (u, run, lay', done) =
        translate-prefix n n 0 0 place s all (omega arith) lay
          (λ k low high. known k (omega arith)) in
      (u, run, done)

  -- If the first `n` ids are known and the next is not, the loop reports an error, but the first
  -- `n` have been replaced by kernel handles, and stay so.
  pub translate_partly :
      (n m : ℕ) (place : ℕ → ℕ) (s : Server W)
      → n < count
      → IsLayout place s.mem
      → ((k : ℕ) → k < n → (b : Buffer) × (find (s.mem (place k)) s.buffers ≡ some b))
      → find (s.mem (place n)) s.buffers ≡ none
      → (u : Server W) × (translate abi api (n + suc m) 0 submit s ≡ ok (negsuc 0) u)
        × Replaced place 0 n s u
  unfolding translate
  translate_partly n m place s most lay known unknown =
      let (u, run, lay', done) =
        translate-prefix (n + suc m) n (suc m) 0 place s refl (omega arith) lay
          (λ k low high. known k (omega arith)) in
      let index : 0 + n ≡ n = omega arith in
      let seen : u.mem (place n) ≡ s.mem (place n) =
        done.outside (place n)
          (λ k low high same. absurd (omega (arith, lay.apart n k most (omega arith) same))) in
      let missing : find (u.mem (place n)) u.buffers ≡ none = rw (seen, done.kept) unknown in
      (
        u,
        run
            ∙ (ap (λ j. translate abi api (suc m) j submit u) index
                ∙ stops n m place u most lay' missing),
        done,
      )
    where
      stops :
          (k m : ℕ) (place : ℕ → ℕ) (u : Server W)
          → k < count
          → IsLayout place u.mem
          → find (u.mem (place k)) u.buffers ≡ none
          → translate abi api (suc m) k submit u ≡ ok (negsuc 0) u
      stops k m place u low lay e = ground (arith, lay.at k low, lay.live k low)
