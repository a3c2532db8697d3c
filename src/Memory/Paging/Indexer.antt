-- ===== src/Memory/Paging/Indexer.antt =====
-- The four indices of a virtual address, as kernel/src/memory/paging.cpp takes them.
use print_os.Base.{ℕ, ◌+◌, ◌*◌, ◌/◌, ◌%◌, ◌^◌, ◌<◌, ◌≡◌, ◌↔◌, ap, arith}
use print_os.Kutils.Bits.Laws.{bit_and_mask}
use print_os.Memory.Paging.{PageIndexer, page_indexer}

indexer_fields :
    (v : ℕ)
    → page_indexer v ≡ record {
      pml4 = v / 2 ^ 39 % 512;
      pdpt = v / 2 ^ 30 % 512;
      pd = v / 2 ^ 21 % 512;
      pt = v / 2 ^ 12 % 512;
    }
unfolding page_indexer
indexer_fields v = ground (
  arith,
  bit_and_mask 9 (v / 2 ^ 12),
  bit_and_mask 9 (v / 2 ^ 12 / 2 ^ 9),
  bit_and_mask 9 (v / 2 ^ 12 / 2 ^ 9 / 2 ^ 9),
  bit_and_mask 9 (v / 2 ^ 12 / 2 ^ 9 / 2 ^ 9 / 2 ^ 9),
)

-- The indices are below 512, and with the page offset they make up the low 48 bits of the address.
pub page_indexer_lem :
    (v : ℕ)
    → let x = page_indexer v in
      (x.pml4 < 512)
      × (x.pdpt < 512)
      × (x.pd < 512)
      × (x.pt < 512)
      × (x.pml4 * 2 ^ 39 + x.pdpt * 2 ^ 30 + x.pd * 2 ^ 21 + x.pt * 2 ^ 12 + v % 2 ^ 12
          ≡ v % 2 ^ 48)
page_indexer_lem v = rw indexer_fields (omega arith)

-- Two addresses have the same indices exactly when they lie in the same page of the 48-bit space.
pub page_indexer_eq :
    (v w : ℕ) → (page_indexer v ≡ page_indexer w) ↔ (v % 2 ^ 48 / 2 ^ 12 ≡ w % 2 ^ 48 / 2 ^ 12)
page_indexer_eq v w = (
  λ e. omega (
    arith,
    page_indexer_lem v,
    page_indexer_lem w,
    ap (λ (x : PageIndexer). x.pml4) e,
    ap (λ (x : PageIndexer). x.pdpt) e,
    ap (λ (x : PageIndexer). x.pd) e,
    ap (λ (x : PageIndexer). x.pt) e,
  ),
  λ e. rw (indexer_fields v, indexer_fields w) (ground arith),
)
