-- ===== src/Emul/Pages.antt =====
-- Page fragments of src/drivers/nic/fec/lx_emul.c: `page_frag_alloc_align`, `page_frag_free` and
-- `get_zeroed_page`.
pub mod Orders
mod Tests
use genode_imx.Base.{
  ℕ, ◌+◌, ◌*◌, ◌/◌, ◌^◌, Bool, ◌==◌, ltb, if◌then◌else◌, Option, none, some, Ptr, null, List, [],
  ◌∷◌, ◌++◌,
}
use genode_imx.Base.Run.{Run, ok, fault}

abbrev pub page_size : ℕ
page_size = 4096

pub data Event : Type 0 where
  alloc_pages : (order : ℕ) → Event
  free_pages : (page order : ℕ) → Event
  print_might_leak : Event
  print_no_page : Event
  backtrace : Event

-- The page allocator: what `__alloc_pages` returns for an order, the addresses of pages,
-- and the field `virtual` of a page.
pub record PageApi : Type 0 where
  pub alloc : ℕ → Ptr
  pub page_address : Ptr → Ptr
  pub virt_to_page : Ptr → Ptr
  pub virtual_of : Ptr → Ptr

abbrev pub page_order : ℕ → ℕ
page_order fragsz = fragsz / page_size

-- `page_frag_alloc_align`
pub page_frag_alloc_align : PageApi → ℕ → List Event → Ptr × List Event
page_frag_alloc_align api fragsz es =
    let order = page_order fragsz in
    let page = api.alloc order in
    let es' = es ++ alloc_pages order ∷ [] in
    if page == null
    then (null, es')
    else (api.page_address page, if ltb 0 order then es' ++ print_might_leak ∷ [] else es')

-- `page_frag_free`; the page is freed also where none was found.
pub page_frag_free : PageApi → Ptr → List Event → List Event
page_frag_free api addr es =
    let page = api.virt_to_page addr in
    (if page == null then es ++ print_no_page ∷ backtrace ∷ [] else es) ++ free_pages page 0 ∷ []

-- `get_zeroed_page`: the field of a page of order 0; with no page, a NULL dereference.
pub get_zeroed_page : PageApi → List Event → Run (List Event) Ptr
get_zeroed_page api es =
    if api.alloc 0 == null
    then fault
    else ok (api.virtual_of (api.alloc 0)) (es ++ alloc_pages 0 ∷ [])
