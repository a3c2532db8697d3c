-- ===== src/Memory/Paging/Allocate.antt =====
-- `allocate_page` of kernel/src/memory/paging.cpp maps its page and no other.
use mathlib.Core.Option.{some-injective}
use print_os.Base.{
  ℕ, ◌<◌, ◌≡◌, refl, subst, ap, ◌∙◌, ◌≢◌, true, Option, some, List, [], ◌∷◌, length, arith,
  >>=-eq-some,
}
use print_os.Memory.Paging.{
  Entry, PageIndexer, Tables, Space, child, to_field, set_entry, page_indexer, descend,
  allocate_page,
}
use print_os.Memory.Paging.Tree.{Owner, IsTree, Level, walk, walk_on}
use print_os.Memory.Paging.Descend.{descend-Level}
use print_os.Memory.Paging.Leaf.{
  depth_ne, onto, written_entry, written_above, written-IsTree, written_walks,
}

-- The indices of a virtual address, from the root down.
abbrev pub indices : ℕ → List ℕ
indices v = let x = page_indexer v in x.pml4 ∷ x.pdpt ∷ x.pd ∷ x.pt ∷ []

-- The page table entry of a virtual address, if its page is present.
abbrev pub translate : (root : ℕ) → Tables → (vaddr : ℕ) → Option Entry
translate root t v = walk t root (indices v)

-- A level leaves the tables of other depths as they were.
Level-above :
    {root table idx c : ℕ} {path : List ℕ} {own : Owner} {s s' : Space}
    → Level root table idx path own s c s'
    → own table ≡ some path
    → (a : ℕ) (p : List ℕ) (i : ℕ) → own a ≡ some p
    → length p ≢ length path
    → s'.tables a i ≡ s.tables a i
Level-above {table} {path} {own} l k a p i h ne =
    l.same a p i h (rw (depth_ne own a table p path h k ne))

-- The three levels of an allocation, and what they leave.
module _ (root v paddr : ℕ) (s : Space) (own : Owner) where
  abbrev x : PageIndexer
  x = page_indexer v

  abbrev Mapping : Entry → Type 0
  Mapping e = (e.present ≡ true) × (e.rw_flag ≡ true) × (e.addr ≡ to_field paddr)

  -- After the allocation of a page.
  pub record Allocated (s' : Space) : Type 0 where
    pub own' : Owner
    pub is_tree : IsTree root s' own'
    pub entry : Entry
    pub maps : Mapping entry
    pub here : translate root s'.tables v ≡ some entry
    pub elsewhere :
        (w : ℕ) → page_indexer w ≢ x → translate root s'.tables w ≡ translate root s.tables w

  module _ {c₁ c₂ c₃ : ℕ} {s₁ s₂ s₃ : Space} (root₀ : own root ≡ some [])
      (l₁ : Level root root x.pml4 [] own s c₁ s₁)
      (l₂ : Level root c₁ x.pdpt (x.pml4 ∷ []) l₁.own' s₁ c₂ s₂)
      (l₃ : Level root c₂ x.pd (x.pdpt ∷ x.pml4 ∷ []) l₂.own' s₂ c₃ s₃) where
    abbrev path₃ : List ℕ
    path₃ = x.pd ∷ x.pdpt ∷ x.pml4 ∷ []

    abbrev final : Tables
    final = set_entry s₃.tables c₃ x.pt paddr

    root₁ : l₁.own' root ≡ some []
    root₁ = l₁.is_tree.root_own

    root₂ : l₂.own' root ≡ some []
    root₂ = l₂.is_tree.root_own

    root₃ : l₃.own' root ≡ some []
    root₃ = l₃.is_tree.root_own

    pdpt₂ : l₂.own' c₁ ≡ some (x.pml4 ∷ [])
    pdpt₂ = l₂.extends c₁ _ l₁.reached

    pdpt₃ : l₃.own' c₁ ≡ some (x.pml4 ∷ [])
    pdpt₃ = l₃.extends c₁ _ pdpt₂

    pd₃ : l₃.own' c₂ ≡ some (x.pdpt ∷ x.pml4 ∷ [])
    pd₃ = l₃.extends c₂ _ l₂.reached

    final_above :
        (a : ℕ) (p : List ℕ) (i : ℕ) → l₃.own' a ≡ some p → length p < 3 → final a i ≡ s₃.tables a i
    final_above = written_above root s₃ l₃.own' l₃.is_tree c₃ x.pt paddr path₃ l₃.reached refl

    final_root : final root x.pml4 ≡ s₁.tables root x.pml4
    final_root =
        final_above root [] x.pml4 root₃ (omega arith)
        ∙ Level-above l₃ l₂.reached root [] x.pml4 root₂ (omega arith)
        ∙ Level-above l₂ l₁.reached root [] x.pml4 root₁ (omega arith)

    final_pdpt : final c₁ x.pdpt ≡ s₂.tables c₁ x.pdpt
    final_pdpt =
        final_above c₁ (x.pml4 ∷ []) x.pdpt pdpt₃ (omega arith)
        ∙ Level-above l₃ l₂.reached c₁ (x.pml4 ∷ []) x.pdpt pdpt₂ (omega arith)

    final_pd : final c₂ x.pd ≡ s₃.tables c₂ x.pd
    final_pd = final_above c₂ (x.pdpt ∷ x.pml4 ∷ []) x.pd pd₃ (omega arith)

    -- One step of the walk to the new entry.
    step :
        (a c i j : ℕ) (is : List ℕ) (t : Tables)
        → final a i ≡ t a i
        → (t a i).present ≡ true
        → child (t a i) ≡ c
        → walk final a (i ∷ j ∷ is) ≡ walk final c (j ∷ is)
    step a c i j is t e on to =
        walk_on final a i j is (ap (λ (y : Entry). y.present) e ∙ on)
        ∙ ap (λ (y : ℕ). walk final y (j ∷ is)) (ap child e ∙ to)

    final_here : walk final root (indices v) ≡ some (final c₃ x.pt)
    final_here =
        step root c₁ x.pml4 x.pdpt (x.pd ∷ x.pt ∷ []) s₁.tables final_root l₁.is_present l₁.leads
        ∙ step c₁ c₂ x.pdpt x.pd (x.pt ∷ []) s₂.tables final_pdpt l₂.is_present l₂.leads
        ∙ step c₂ c₃ x.pd x.pt [] s₃.tables final_pd l₃.is_present l₃.leads
        ∙ ground (
          arith,
          (written_entry root s₃ l₃.own' l₃.is_tree c₃ x.pt paddr path₃ l₃.reached refl).0,
        )

    indices_differ : (w : ℕ) → page_indexer w ≢ x → onto (indices w) [] ≢ x.pt ∷ path₃
    indices_differ w ne e = ne (ground arith)

    final_elsewhere :
        (w : ℕ) → page_indexer w ≢ x → translate root final w ≡ translate root s.tables w
    final_elsewhere w ne =
        written_walks root s₃ l₃.own' l₃.is_tree c₃ x.pt paddr path₃ l₃.reached refl root []
          (indices w) root₃ refl (indices_differ w ne)
        ∙ l₃.walks root [] (indices w) root₂ refl
        ∙ l₂.walks root [] (indices w) root₁ refl
        ∙ l₁.walks root [] (indices w) root₀ refl

    final-Allocated : Allocated (record s₃ { tables = final })
    final-Allocated = record {
      own' = l₃.own';
      is_tree = written-IsTree root s₃ l₃.own' l₃.is_tree c₃ x.pt paddr path₃ l₃.reached refl;
      entry = final c₃ x.pt;
      maps = written_entry root s₃ l₃.own' l₃.is_tree c₃ x.pt paddr path₃ l₃.reached refl;
      here = final_here;
      elsewhere = final_elsewhere;
    }

  -- When `allocate_page` succeeds on tables that form a tree, they form a tree again, the page of
  -- the virtual address is present and writable and holds the physical address in its 32-bit
  -- field, and every address of another page is translated as before.
  pub allocate_page-Allocated :
      {s' : Space} → IsTree root s own → allocate_page root v paddr s ≡ some s' → Allocated s'
  unfolding allocate_page
  allocate_page-Allocated {s'} is_tree h =
      let ((c₁, s₁), e₁, h₁) = >>=-eq-some (descend root x.pml4 s) _ h in
      let ((c₂, s₂), e₂, h₂) = >>=-eq-some (descend c₁ x.pdpt s₁) _ h₁ in
      let ((c₃, s₃), e₃, h₃) = >>=-eq-some (descend c₂ x.pd s₂) _ h₂ in
      let l₁ = descend-Level root s own root x.pml4 [] e₁ is_tree is_tree.root_own (omega arith) in
      let l₂ =
        descend-Level root s₁ l₁.own' c₁ x.pdpt (x.pml4 ∷ []) e₂ l₁.is_tree l₁.reached
          (omega arith) in
      let l₃ =
        descend-Level root s₂ l₂.own' c₂ x.pd (x.pdpt ∷ x.pml4 ∷ []) e₃ l₂.is_tree l₂.reached
          (omega arith) in
      subst Allocated (some-injective _ _ h₃) (final-Allocated is_tree.root_own l₁ l₂ l₃)
