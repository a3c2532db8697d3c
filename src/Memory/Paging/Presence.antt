-- ===== src/Memory/Paging/Presence.antt =====
-- When `allocate_page` of kernel/src/memory/paging.cpp succeeds, and what `is_page_allocated` says
-- after it.
use print_os.Base.{
  ℕ, zero, suc, ◌≡◌, refl, sym, ap, ◌∙◌, ◌≢◌, inl, inr, Bool, true, false, Bool-cases, Option, none,
  some, arith, ◌==◌,
}
use print_os.Memory.PMem.{PMem, request_frame}
use print_os.Memory.Paging.{
  Entry, Tables, Space, child, page_indexer, attach, descend, set_entry, clear_table, allocate_page,
  is_page_allocated,
}
use print_os.Memory.Paging.Tree.{Owner, IsTree}
use print_os.Memory.Paging.Allocate.{translate, allocate_page-Allocated}

-- The next `k` requests for a frame succeed, and none of them gives null.
abbrev pub Supply : PMem → ℕ → Type 0
Supply p zero = Unit {0}
Supply p (suc k) =
    (frame : ℕ) × (q : PMem) × (request_frame p ≡ some (frame, q)) × (frame ≢ 0) × Supply q k

Supply-less : (p : PMem) (k : ℕ) → Supply p (suc k) → Supply p k
Supply-less p zero s = tt
Supply-less p (suc k) (frame, q, e, nz, s) = (frame, q, e, nz, Supply-less q k s)

descend-some :
    (table idx : ℕ) (s : Space) (k : ℕ)
    → Supply s.pmem (suc k)
    → (c : ℕ) × (s' : Space) × (descend table idx s ≡ some (c, s')) × Supply s'.pmem k
unfolding descend attach
descend-some table idx s k (frame, q, e, nz, rest) =
    elim (Bool-cases (s.tables table idx).present) [
      | inl on ↦
          (child (s.tables table idx), s, rw on refl, Supply-less s.pmem k (frame, q, e, nz, rest))
      | inr off ↦
          let t = set_entry (clear_table s.tables frame) table idx frame in
          let not_null : (frame == 0) ≡ false = ground arith in
          (frame, record { pmem = q; tables = t }, rw (off, e, not_null) refl, rest)
    ]

-- `allocate_page` succeeds where the next three requests for a frame do.
pub allocate_page_total :
    (root vaddr paddr : ℕ) (s : Space)
    → Supply s.pmem 3
    → (s' : Space) × (allocate_page root vaddr paddr s ≡ some s')
unfolding allocate_page
allocate_page_total root vaddr paddr s three =
    let x = page_indexer vaddr in
    let (c1, s1, e1, two) = descend-some root x.pml4 s 2 three in
    let (c2, s2, e2, one) = descend-some c1 x.pdpt s1 1 two in
    let (c3, s3, e3, none_left) = descend-some c2 x.pd s2 0 one in
    (record s3 { tables = set_entry s3.tables c3 x.pt paddr }, rw (e1, e2, e3) refl)

abbrev is_some : Option Entry → Bool
is_some none = false
is_some (some e) = true

-- `is_page_allocated` says whether there is a translation.
is_page_allocated-translate :
    (root : ℕ) (t : Tables) (v : ℕ) → is_page_allocated root t v ≡ is_some (translate root t v)
unfolding is_page_allocated
is_page_allocated-translate root t v = ground arith

-- After `allocate_page` has succeeded on tables that form a tree, `is_page_allocated` says so of
-- the address, and of every address of another page what it said before.
pub allocate_page-is_page_allocated :
    (root v paddr : ℕ) (s : Space) (own : Owner) {s' : Space}
    → IsTree root s own
    → allocate_page root v paddr s ≡ some s'
    → (is_page_allocated root s'.tables v ≡ true)
      × ((w : ℕ)
          → page_indexer w ≢ page_indexer v
          → is_page_allocated root s'.tables w ≡ is_page_allocated root s.tables w)
allocate_page-is_page_allocated root v paddr s own {s'} tree h =
    let a = allocate_page-Allocated root v paddr s own tree h in
    (
      is_page_allocated-translate root s'.tables v ∙ ap is_some a.here,
      λ w ne.
          is_page_allocated-translate root s'.tables w
          ∙ ap is_some (a.elsewhere w ne)
          ∙ sym (is_page_allocated-translate root s.tables w),
    )
