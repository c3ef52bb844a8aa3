-- ===== src/Emul/Pages/Orders.antt =====
-- Enough pages for a fragment, and how many of them come back.
use genode_imx.Base.{
  ℕ, zero, suc, ◌+◌, ◌*◌, ◌/◌, ◌^◌, ◌≡◌, ◌↔◌, ◌<◌, ap, Ptr, List, [], ◌∷◌, ◌++◌, arith,
}
use native.Mathlib.Nat.{pow-suc}
use genode_imx.Emul.Pages.{
  page_size, Event, alloc_pages, free_pages, print_might_leak, print_no_page, backtrace, PageApi,
  page_order, page_frag_alloc_align, page_frag_free,
}

lt-pow : (n : ℕ) → n < 2 ^ n
lt-pow zero = omega arith
lt-pow (suc n) = rw (pow-suc 2 n) (omega (arith, lt-pow n))

-- The pages that the calls have taken, and those that they have given back.
pub taken : List Event → ℕ
taken [] = 0
taken (alloc_pages order ∷ es) = 2 ^ order + taken es
taken (_ ∷ es) = taken es

pub given_back : List Event → ℕ
given_back [] = 0
given_back (free_pages page order ∷ es) = 2 ^ order + given_back es
given_back (_ ∷ es) = given_back es

-- The pages of the order that is chosen for a fragment hold the fragment.
pub page_order-holds : (fragsz : ℕ) → fragsz < 2 ^ page_order fragsz * page_size
page_order-holds fragsz = omega (arith, lt-pow (fragsz / page_size))

taken-append : (es fs : List Event) → taken (es ++ fs) ≡ taken es + taken fs
unfolding taken
taken-append [] fs = omega arith
taken-append (alloc_pages n ∷ es) fs = omega (arith, taken-append es fs)
taken-append (_ ∷ es) fs = taken-append es fs

given_back-append : (es fs : List Event) → given_back (es ++ fs) ≡ given_back es + given_back fs
unfolding given_back
given_back-append [] fs = omega arith
given_back-append (free_pages p n ∷ es) fs = omega (arith, given_back-append es fs)
given_back-append (_ ∷ es) fs = given_back-append es fs

alloc_counts :
    (api : PageApi) (fragsz : ℕ) (es : List Event)
    → let fs = (page_frag_alloc_align api fragsz es).1 in
      (taken fs ≡ taken es + 2 ^ page_order fragsz) × (given_back fs ≡ given_back es)
unfolding page_frag_alloc_align taken given_back
alloc_counts api fragsz es =
    let order = page_order fragsz in
    (
      ground (
        arith,
        taken-append es (alloc_pages order ∷ []),
        taken-append (es ++ alloc_pages order ∷ []) (print_might_leak ∷ []),
      ),
      ground (
        arith,
        given_back-append es (alloc_pages order ∷ []),
        given_back-append (es ++ alloc_pages order ∷ []) (print_might_leak ∷ []),
      ),
    )

free_counts :
    (api : PageApi) (addr : Ptr) (es : List Event)
    → let fs = page_frag_free api addr es in
      (taken fs ≡ taken es) × (given_back fs ≡ given_back es + 1)
unfolding page_frag_free taken given_back
free_counts api addr es =
    let page = api.virt_to_page addr in
    (
      ground (
        arith,
        taken-append es (print_no_page ∷ backtrace ∷ []),
        taken-append es (free_pages page 0 ∷ []),
        taken-append (es ++ print_no_page ∷ backtrace ∷ []) (free_pages page 0 ∷ []),
      ),
      ground (
        arith,
        given_back-append es (print_no_page ∷ backtrace ∷ []),
        given_back-append es (free_pages page 0 ∷ []),
        given_back-append (es ++ print_no_page ∷ backtrace ∷ []) (free_pages page 0 ∷ []),
      ),
    )

-- The pages that `page_frag_alloc_align` takes for a fragment hold it. Freeing the fragment gives
-- one page back, so that what stays behind is all the pages taken but one: none exactly if the
-- fragment is smaller than a page.
pub page_frag_free-alloc :
    (api : PageApi) (fragsz : ℕ) (es : List Event)
    → let (addr, fs) = page_frag_alloc_align api fragsz es in
      let gs = page_frag_free api addr fs in
      (fragsz < 2 ^ page_order fragsz * page_size)
      × (taken gs ≡ taken es + 2 ^ page_order fragsz)
      × (given_back gs ≡ given_back es + 1)
      × ((fragsz < page_size) ↔ (taken gs + given_back es ≡ taken es + given_back gs))
page_frag_free-alloc api fragsz es =
    let (addr, fs) = page_frag_alloc_align api fragsz es in
    let (took, kept) = alloc_counts api fragsz es in
    let (same, back) = free_counts api addr fs in
    let n = page_order fragsz in
    (
      page_order-holds fragsz,
      omega arith,
      omega arith,
      (
        λ small. let e : n ≡ 0 = omega arith in omega (arith, ap (λ k. 2 ^ k) e),
        λ even. omega (arith, lt-pow n),
      ),
    )
