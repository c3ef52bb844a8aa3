-- ===== src/Emul/Pages/Tests.antt =====
-- A fragment of three pages, for which four are taken.
use genode_imx.Base.{◌*◌, ◌/◌, ◌≡◌, refl, [], ◌∷◌}
use genode_imx.Emul.Pages.{
  page_size, alloc_pages, free_pages, print_might_leak, PageApi, page_frag_alloc_align,
  page_frag_free,
}

abbrev api : PageApi
api = record {
  alloc = λ order. 5;
  page_address = λ p. p * page_size;
  virt_to_page = λ a. a / page_size;
  virtual_of = λ p. p * page_size;
}

three_pages :
    page_frag_free api (page_frag_alloc_align api 12000 []).0 (page_frag_alloc_align api 12000 []).1
    ≡ alloc_pages 2 ∷ print_might_leak ∷ free_pages 5 0 ∷ []
unfolding page_frag_free page_frag_alloc_align
three_pages = refl
