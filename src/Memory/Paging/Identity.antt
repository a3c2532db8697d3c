-- ===== src/Memory/Paging/Identity.antt =====
-- `__identity_paging` of kernel/src/memory/paging.cpp: which pages it maps.
use print_os.Base.{
  ℕ, zero, suc, ◌+◌, ◌-◌, ◌*◌, ◌/◌, ◌%◌, ◌^◌, ◌≤◌, ◌<◌, ◌≡◌, refl, sym, subst, ap, ◌∙◌, ◌≢◌, ◌⊎◌,
  ◌↔◌, true, some, arith, >>=-eq-some, u64_mod,
}
use mathlib.Core.Option.{some-injective}
use print_os.Memory.Paging.{
  Entry, Tables, Space, to_field, page_indexer, allocate_page, identity_loop, identity_rounds,
  identity_paging,
}
use print_os.Memory.Paging.Indexer.{page_indexer_eq}
use print_os.Memory.Paging.Tree.{Owner, IsTree}
use print_os.Memory.Paging.Allocate.{translate, Allocated, allocate_page-Allocated}

-- The page of `w` is mapped to the frame of the same address.
abbrev pub MapsItself : (root : ℕ) → Tables → ℕ → Type 0
MapsItself root t w =
    (e : Entry) × (translate root t w ≡ some e) × (e.present ≡ true) × (e.addr ≡ to_field w)

-- What `k` rounds from the page of `addr` on have done.
pub record Identity (root k addr : ℕ) (s s' : Space) : Type 0 where
  pub own : Owner
  pub is_tree : IsTree root s' own
  pub inside : (i : ℕ) → i < k → MapsItself root s'.tables (addr + i * 4096)
  pub outside :
      (w : ℕ)
      → w < 2 ^ 48
      → (w / 4096 < addr / 4096) ⊎ (addr / 4096 + k ≤ w / 4096)
      → translate root s'.tables w ≡ translate root s.tables w

other_page :
    (v w : ℕ) → v < 2 ^ 48 → w < 2 ^ 48 → v / 4096 ≢ w / 4096 → page_indexer v ≢ page_indexer w
other_page v w hv hw ne e = ne (omega (arith, (page_indexer_eq v w).0 e))

-- A first page, and the pages after it.
Identity-cons :
    (root k addr : ℕ) (s : Space) (own : Owner) {s₁ s' : Space}
    → addr + suc k * 4096 ≤ 2 ^ 48
    → Allocated root addr addr s own s₁
    → Identity root k (addr + 4096) s₁ s'
    → Identity root (suc k) addr s s'
Identity-cons root k addr s own {s₁} {s'} fits a rest = record {
  own = rest.own;
  is_tree = rest.is_tree;
  inside = inside;
  outside = λ w l o.
      rest.outside w l (omega arith)
      ∙ a.elsewhere w (other_page w addr l (omega arith) (omega arith));
}
  where
    inside : (i : ℕ) → i < suc k → MapsItself root s'.tables (addr + i * 4096)
    inside zero l =
        let first : addr ≡ addr + 0 * 4096 = omega arith in
        subst (MapsItself root s'.tables) first
          (a.entry, rest.outside addr (omega arith) (omega arith) ∙ a.here, a.maps.0, a.maps.2)
    inside (suc i) l =
        let next : addr + 4096 + i * 4096 ≡ addr + suc i * 4096 = omega arith in
        subst (MapsItself root s'.tables) next (rest.inside i (omega arith))

identity_loop-Identity :
    (root k addr : ℕ) (s : Space) (own : Owner) {s' : Space}
    → IsTree root s own
    → addr + k * 4096 ≤ 2 ^ 48
    → identity_loop root k addr s ≡ some s'
    → Identity root k addr s s'
unfolding identity_loop
identity_loop-Identity root zero addr s own is_tree fits h =
    subst (Identity root 0 addr s) (some-injective _ _ h) (record {
      own = own;
      is_tree = is_tree;
      inside = λ i l. absurd (omega arith);
      outside = λ w l o. refl;
    })
identity_loop-Identity root (suc k) addr s own {s'} is_tree fits h =
    let (s₁, e₁, h₁) = >>=-eq-some (allocate_page root addr addr s) _ h in
    let next : (addr + 4096) % u64_mod ≡ addr + 4096 = omega arith in
    let a = allocate_page-Allocated root addr addr s own is_tree e₁ in
    Identity-cons root k addr s own fits a (
      identity_loop-Identity root k (addr + 4096) s₁ a.own' a.is_tree (omega arith)
        (ap (λ (x : ℕ). identity_loop root k x s₁) (sym next) ∙ h₁))

-- When `__identity_paging` succeeds on a region in the 48-bit space, the tables are a tree, every
-- page of its rounds is mapped to the frame of the same address, and no other page is translated
-- otherwise than before.
pub identity_paging-Identity :
    (root addr n : ℕ) (s : Space) (own : Owner) {s' : Space}
    → IsTree root s own
    → addr + identity_rounds n * 4096 ≤ 2 ^ 48
    → identity_paging root addr n s ≡ some s'
    → Identity root (identity_rounds n) addr s s'
unfolding identity_paging
identity_paging-Identity root addr n s own is_tree fits h =
    identity_loop-Identity root (identity_rounds n) addr s own is_tree fits h

-- The rounds cover a region of whole pages exactly when there are at most 4097 of them.
pub identity_rounds_covers : (k : ℕ) → (k ≤ identity_rounds (k * 4096)) ↔ (k ≤ 4097)
identity_rounds_covers k = (λ h. omega arith, λ h. omega arith)

-- In a region of more than 4097 pages the last page is not mapped: its address is translated as
-- before the call.
pub identity_paging_gap :
    (root addr k : ℕ) (s : Space) (own : Owner) {s' : Space}
    → IsTree root s own
    → addr + k * 4096 ≤ 2 ^ 48
    → 4097 < k
    → identity_paging root addr (k * 4096) s ≡ some s'
    → let last = addr + (k - 1) * 4096 in
      translate root s'.tables last ≡ translate root s.tables last
identity_paging_gap root addr k s own is_tree fits many h =
    (identity_paging-Identity root addr (k * 4096) s own is_tree (omega arith) h).outside
      (addr + (k - 1) * 4096) (omega arith) (omega arith)
