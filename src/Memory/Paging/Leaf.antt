-- ===== src/Memory/Paging/Leaf.antt =====
-- The last write of `allocate_page` of kernel/src/memory/paging.cpp, to an entry of a page table.
use mathlib.Core.Option.{some-injective}
use print_os.Base.{
  ℕ, ◌+◌, ◌<◌, ◌≡◌, refl, sym, ap, ◌∙◌, ◌≢◌, inl, inr, true, false, ◌&&◌, Bool-cases, some, List,
  [], ◌∷◌, length, arith, ◌==◌, ==_iff,
}
use print_os.Memory.Paging.{Entry, Tables, Space, child, to_field, set_entry}
use print_os.Memory.Paging.Tree.{Owner, IsTree, walk, walk_on, walk_off}

-- Tables of different depths differ.
pub depth_ne :
    (own : Owner) (a b : ℕ) (p q : List ℕ)
    → own a ≡ some p
    → own b ≡ some q
    → length p ≢ length q
    → (a == b) ≡ false
depth_ne own a b p q h k ne = elim (Bool-cases (a == b)) [
  | inl e ↦
      let same : p ≡ q = some-injective _ _ (sym h ∙ ap own ((==_iff a b).0 e) ∙ k) in
      absurd (ne (ap length same))
  | inr off ↦ off
]

-- The indices of a way, the last first, on top of those that led to its start.
abbrev pub onto : List ℕ → List ℕ → List ℕ
onto [] path = path
onto (i ∷ is) path = onto is (i ∷ path)

-- The write of the last entry, at a table of depth three.
module _ (root : ℕ) (s : Space) (own : Owner) (is_tree : IsTree root s own) (table idx paddr : ℕ)
    (path : List ℕ) (here : own table ≡ some path) (leaf : length path ≡ 3) where
  abbrev pub written : Tables
  written = set_entry s.tables table idx paddr

  written_other : (a i : ℕ) → (a == table && i == idx) ≡ false → written a i ≡ s.tables a i
  unfolding set_entry
  written_other a i off = ground arith

  pub written_entry :
      let e = written table idx in
      (e.present ≡ true) × (e.rw_flag ≡ true) × (e.addr ≡ to_field paddr)
  unfolding set_entry
  written_entry = ground arith

  pub written_above :
      (a : ℕ) (p : List ℕ) (i : ℕ) → own a ≡ some p → length p < 3 → written a i ≡ s.tables a i
  written_above a p i h len =
      written_other a i (rw (depth_ne own a table p path h here λ e. absurd (omega arith)))

  pub written-IsTree : IsTree root (record s { tables = written }) own
  written-IsTree = record {
    root_own = is_tree.root_own;
    tree = λ a p i h len on.
        let e = written_above a p i h len in
        ap (λ (x : Entry). own (child x)) e
        ∙ is_tree.tree a p i h len (sym (ap (λ (x : Entry). x.present) e) ∙ on);
    held = is_tree.held;
    ready = is_tree.ready;
  }

  leaf_off :
      (a : ℕ) (p : List ℕ) (i : ℕ)
      → own a ≡ some p
      → i ∷ p ≢ idx ∷ path
      → (a == table && i == idx) ≡ false
  leaf_off a p i h ne = elim (Bool-cases (a == table && i == idx)) [
    | inl at ↦
        let a_eq : a ≡ table = ground arith in
        let i_eq : i ≡ idx = ground arith in
        let same : p ≡ path = some-injective _ _ (sym h ∙ ap own a_eq ∙ here) in
        absurd (ne (cc (same, i_eq)))
    | inr off ↦ off
  ]

  pub written_walks :
      (a : ℕ) (p is : List ℕ)
      → own a ≡ some p
      → length p + length is ≡ 4
      → onto is p ≢ idx ∷ path
      → walk written a is ≡ walk s.tables a is
  written_walks a p [] h len ne = refl
  written_walks a p (i ∷ []) h len ne = let e = written_other a i (leaf_off a p i h ne) in rw e
  written_walks a p (i ∷ j ∷ is) h len ne =
      let e = written_above a p i h (omega arith) in
      elim (Bool-cases (s.tables a i).present) [
        | inl on ↦
            walk_on written a i j is (ap (λ (x : Entry). x.present) e ∙ on)
            ∙ ap (λ (x : Entry). walk written (child x) (j ∷ is)) e
            ∙ written_walks (child (s.tables a i)) (i ∷ p) (j ∷ is)
                (is_tree.tree a p i h (omega arith) on) (omega arith) ne
            ∙ sym (walk_on s.tables a i j is on)
        | inr not_on ↦
            walk_off written a i j is (ap (λ (x : Entry). x.present) e ∙ not_on)
            ∙ sym (walk_off s.tables a i j is not_on)
      ]
