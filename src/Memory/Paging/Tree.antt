-- ===== src/Memory/Paging/Tree.antt =====
-- The page tables of kernel/src/memory/paging.cpp as a tree: which table belongs to which path of
-- indices, and what one level of `allocate_page` does to it.
use print_os.Base.{
  ℕ, ◌+◌, ◌*◌, ◌/◌, ◌%◌, ◌^◌, ◌≤◌, ◌<◌, ◌≡◌, refl, sym, ap, ◌∙◌, ◌≢◌, inl, inr, true, false, ◌&&◌,
  Bool-cases, Option, none, some, List, [], ◌∷◌, length, arith, ◌==◌, ==_iff, if◌then◌else◌,
}
use print_os.Memory.PMem.{PMem, locked}
use print_os.Memory.Paging.{Entry, Tables, Space, child, to_field, clear_table, set_entry}

-- For each table that is in use, the indices that lead to it, the last one first.
abbrev pub Owner : Type 0
Owner = ℕ → Option (List ℕ)

-- The allocator can be asked, and its frames have 32-bit addresses.
pub record IsReady (p : PMem) : Type 0 where
  pub within : p.last_free_idx ≤ p.frames
  pub low : p.frames * 4096 ≤ 2 ^ 32

pub record IsTree (root : ℕ) (s : Space) (own : Owner) : Type 0 where
  pub root_own : own root ≡ some []
  pub tree :
      (a : ℕ) (path : List ℕ) (i : ℕ)
      → own a ≡ some path
      → length path < 3
      → (s.tables a i).present ≡ true
      → own (child (s.tables a i)) ≡ some (i ∷ path)
  pub held : (a : ℕ) (path : List ℕ) → own a ≡ some path → locked s.pmem (a / 4096) ≡ true
  pub ready : IsReady s.pmem

-- The last entry on the way that the indices name, if it and all before it are present.
abbrev pub walk : Tables → (a : ℕ) → List ℕ → Option Entry
walk t a [] = none
walk t a (i ∷ []) = if (t a i).present then some (t a i) else none
walk t a (i ∷ j ∷ is) = if (t a i).present then walk t (child (t a i)) (j ∷ is) else none

module _ (t : Tables) (a i j : ℕ) (is : List ℕ) where
  pub walk_on : (t a i).present ≡ true → walk t a (i ∷ j ∷ is) ≡ walk t (child (t a i)) (j ∷ is)
  walk_on h = ground arith

  pub walk_off : (t a i).present ≡ false → walk t a (i ∷ j ∷ is) ≡ none
  walk_off h = ground arith

-- `t` holds at `a` what `t'` holds, where the owner of `a` is known.
abbrev pub SameBut : Owner → (table idx : ℕ) → Tables → Tables → Type 0
SameBut own table idx t t' =
    (a : ℕ) (path : List ℕ) (j : ℕ)
    → own a ≡ some path
    → (a == table && j == idx) ≡ false
    → t' a j ≡ t a j

abbrev pub SameWalks : Owner → Tables → Tables → Type 0
SameWalks own t t' =
    (a : ℕ) (path is : List ℕ)
    → own a ≡ some path
    → length path + length is ≡ 4
    → walk t' a is ≡ walk t a is

-- What one level has done.
pub record Level (root table idx : ℕ) (path : List ℕ) (own : Owner) (s : Space) (c : ℕ) (s' : Space)
    : Type 0 where
  pub own' : Owner
  pub is_tree : IsTree root s' own'
  pub extends : (a : ℕ) (p : List ℕ) → own a ≡ some p → own' a ≡ some p
  pub reached : own' c ≡ some (idx ∷ path)
  pub is_present : (s'.tables table idx).present ≡ true
  pub leads : child (s'.tables table idx) ≡ c
  pub same : SameBut own table idx s.tables s'.tables
  pub walks : SameWalks own s.tables s'.tables

child_field : (f : ℕ) (i : ℕ) → f ≡ i * 4096 → f < 2 ^ 32 → to_field f * 2 ^ 12 % 2 ^ 32 ≡ f
unfolding to_field
child_field f i e h = omega arith

-- The tables with a cleared one at `f`, and the entry of `table` at `idx` leading there.
abbrev pub linked : Tables → (table idx f : ℕ) → Tables
linked t table idx f = set_entry (clear_table t f) table idx f

module _ (t : Tables) (table idx f : ℕ) (ne : f ≢ table) where
  pub linked_entry :
      (i : ℕ)
      → f ≡ i * 4096
      → f < 2 ^ 32
      → let e = linked t table idx f table idx in (e.present ≡ true) × (child e ≡ f)
  unfolding set_entry clear_table child
  linked_entry i e h = ground (arith, child_field f i e h)

  linked_new : (j : ℕ) → (linked t table idx f f j).present ≡ false
  unfolding set_entry clear_table
  linked_new j = ground arith

  pub linked_old :
      (a j : ℕ) → a ≢ f → (a == table && j == idx) ≡ false → linked t table idx f a j ≡ t a j
  unfolding set_entry clear_table
  linked_old a j n o = ground arith

-- A walk from a table with no entry leads nowhere.
walk_clear :
    (t : Tables) (f : ℕ) (is : List ℕ) → ((j : ℕ) → (t f j).present ≡ false) → walk t f is ≡ none
walk_clear t f [] h = refl
walk_clear t f (i ∷ []) h = rw (h i)
walk_clear t f (i ∷ j ∷ is) h = rw (h i)

-- A table in use, an index of it with no entry, and an unused frame to hang there.
pub record Slot (own : Owner) (t : Tables) (table idx f : ℕ) (path : List ℕ) : Type 0 where
  pub here : own table ≡ some path
  pub deep : length path < 3
  pub absent : (t table idx).present ≡ false
  pub unused : own f ≡ none
  pub low : f < 2 ^ 32
  pub n : ℕ
  pub aligned : f ≡ n * 4096

-- The owners when the frame has become a table.
abbrev pub grown : Owner → (f idx : ℕ) → List ℕ → Owner
grown own f idx path a = if a == f then some (idx ∷ path) else own a

module _ (root : ℕ) (s : Space) (own : Owner) (tr : IsTree root s own) (table idx f : ℕ)
    (path : List ℕ) (slot : Slot own s.tables table idx f path) where
  open slot use {here, deep, absent, unused, low, n, aligned}

  pub used_ne : (a : ℕ) (p : List ℕ) → own a ≡ some p → a ≢ f
  used_ne a p h e = let both : none ≡ some p = sym unused ∙ ap own (sym e) ∙ h in cc

  pub fresh_ne : f ≢ table
  fresh_ne e = used_ne table path here (sym e)

  leaf_ne : (a : ℕ) (p : List ℕ) → own a ≡ some p → length p ≡ 3 → (a == table) ≡ false
  leaf_ne a p h len = elim (Bool-cases (a == table)) [
    | inl e ↦
        let same : some p ≡ some path = sym h ∙ ap own ((==_iff a table).0 e) ∙ here in
        let paths : p ≡ path = cc in absurd (omega (arith, ap length paths))
    | inr ne ↦ ne
  ]

  walk_at :
      (j : ℕ) (is : List ℕ)
      → walk (linked s.tables table idx f) table (idx ∷ j ∷ is) ≡ walk s.tables table (idx ∷ j ∷ is)
  walk_at j is =
      let (on, to) = linked_entry s.tables table idx f fresh_ne n aligned low in
      walk_on (linked s.tables table idx f) table idx j is on
      ∙ ap (λ (c : ℕ). walk (linked s.tables table idx f) c (j ∷ is)) to
      ∙ walk_clear (linked s.tables table idx f) f (j ∷ is)
          (linked_new s.tables table idx f fresh_ne)
      ∙ sym (walk_off s.tables table idx j is absent)

  pub linked_walks : SameWalks own s.tables (linked s.tables table idx f)
  linked_walks a p [] h len = refl
  linked_walks a p (i ∷ []) h len =
      let apart : (a == table && i == idx) ≡ false = rw (leaf_ne a p h (omega arith)) in
      rw (linked_old s.tables table idx f fresh_ne a i (used_ne a p h) apart)
  linked_walks a p (i ∷ j ∷ is) h len = elim (Bool-cases (a == table && i == idx)) [
    | inl at ↦
        let a_eq : a ≡ table = ground arith in
        let i_eq : i ≡ idx = ground arith in rw (a_eq, i_eq) (walk_at j is)
    | inr off ↦
        let e = linked_old s.tables table idx f fresh_ne a i (used_ne a p h) off in
        elim (Bool-cases (s.tables a i).present) [
          | inl on ↦
              walk_on (linked s.tables table idx f) a i j is (ap (λ (x : Entry). x.present) e ∙ on)
              ∙ ap (λ (x : Entry). walk (linked s.tables table idx f) (child x) (j ∷ is)) e
              ∙ linked_walks (child (s.tables a i)) (i ∷ p) (j ∷ is)
                  (tr.tree a p i h (omega arith) on) (omega arith)
              ∙ sym (walk_on s.tables a i j is on)
          | inr not_on ↦
              walk_off (linked s.tables table idx f) a i j is
                (ap (λ (x : Entry). x.present) e ∙ not_on)
              ∙ sym (walk_off s.tables a i j is not_on)
        ]
  ]

  pub grown_old : (a : ℕ) (p : List ℕ) → own a ≡ some p → grown own f idx path a ≡ some p
  grown_old a p h = ground (arith, used_ne a p h)

  pub grown_new : grown own f idx path f ≡ some (idx ∷ path)
  grown_new = ground arith

  pub grown_tree :
      (a : ℕ) (p : List ℕ) (i : ℕ)
      → grown own f idx path a ≡ some p
      → length p < 3
      → ((linked s.tables table idx f) a i).present ≡ true
      → grown own f idx path (child ((linked s.tables table idx f) a i)) ≡ some (i ∷ p)
  grown_tree a p i h len on = elim (Bool-cases (a == f)) [
    | inl new ↦
        let a_eq : a ≡ f = (==_iff a f).0 new in
        let off : ((linked s.tables table idx f) a i).present ≡ false =
          rw a_eq (linked_new s.tables table idx f fresh_ne i) in
        cc
    | inr old ↦
        let owned : own a ≡ some p = ground arith in
        elim (Bool-cases (a == table && i == idx)) [
          | inl at ↦
              let a_eq : a ≡ table = ground arith in
              let i_eq : i ≡ idx = ground arith in
              let to : child ((linked s.tables table idx f) a i) ≡ f =
                rw (a_eq, i_eq) (linked_entry s.tables table idx f fresh_ne n aligned low).1 in
              let same : some p ≡ some path = sym owned ∙ ap own a_eq ∙ here in
              ap (grown own f idx path) to ∙ grown_new ∙ cc
          | inr off ↦
              let e = linked_old s.tables table idx f fresh_ne a i (used_ne a p owned) off in
              rw e (grown_old _ (i ∷ p) (tr.tree a p i owned len (rw e at on)))
        ]
  ]
