-- ===== src/Memory/Paging/Descend.antt =====
-- One level of `allocate_page` of kernel/src/memory/paging.cpp keeps the tables a tree.
use mathlib.Core.Option.{some-injective}
use print_os.Base.{
  ℕ, ◌*◌, ◌/◌, ◌<◌, ◌≡◌, refl, sym, subst, ap, ◌∙◌, ◌≢◌, inl, inr, true, false, Bool-cases,
  Option-cases, Option, none, some, List, [], length, arith, ◌==◌,
}
use print_os.Memory.PMem.{PMem, locked, idx_to_frame_ptr, request_frame}
use print_os.Memory.PMem.Flags.{locked-lock_frame}
use print_os.Memory.PMem.Kept.{lock_frame-Kept}
use print_os.Memory.PMem.Request.{granted, request_frame-cases}
use print_os.Memory.Paging.{Tables, Space, child, attach, descend}
use print_os.Memory.Paging.Tree.{
  Owner, IsReady, IsTree, Level, Slot, linked, linked_entry, linked_old, linked_walks, grown,
  grown_old, grown_new, grown_tree, used_ne, fresh_ne,
}

-- The frame that a successful request gives, where it is not null.
record Fresh (p : PMem) (f : ℕ) (q : PMem) : Type 0 where
  n : ℕ
  below : n < p.frames
  was_free : locked p n ≡ false
  aligned : f ≡ n * 4096
  after : q ≡ granted p n

request_frame-Fresh :
    {p q : PMem} {f : ℕ} → request_frame p ≡ some (f, q) → f ≢ 0 → IsReady p → Fresh p f q
unfolding idx_to_frame_ptr
request_frame-Fresh {p} {q} {f} h nz r = elim (request_frame-cases h r.within) [
  | inl (i, first, e) ↦ record {
    n = i;
    below = first.below;
    was_free = first.is_free;
    aligned = omega (arith, ap (λ (o : ℕ × PMem). o.0) e, first.below, r.low);
    after = ap (λ (o : ℕ × PMem). o.1) e;
  }
  | inr (all, e) ↦ absurd (nz (ap (λ (o : ℕ × PMem). o.0) e))
]

module _ (root : ℕ) (s : Space) (own : Owner) (tr : IsTree root s own) (table idx : ℕ)
    (path : List ℕ) (here : own table ≡ some path) (deep : length path < 3) where
  present-Level :
      (s.tables table idx).present ≡ true
      → Level root table idx path own s (child (s.tables table idx)) s
  present-Level on = record {
    own' = own;
    is_tree = tr;
    extends = λ a p h. h;
    reached = tr.tree table path idx here deep on;
    is_present = on;
    leads = refl;
    same = λ a p j h off. refl;
    walks = λ a p is h len. refl;
  }

  absent-Level :
      {f : ℕ} {q : PMem}
      → (s.tables table idx).present ≡ false
      → Fresh s.pmem f q
      → Level root table idx path own s f
          (record { pmem = q; tables = linked s.tables table idx f })
  absent-Level {f} {q} off fr = record {
    own' = grown own f idx path;
    is_tree = record {
      root_own = grown_old root s own tr table idx f path slot root [] tr.root_own;
      tree = grown_tree root s own tr table idx f path slot;
      held = held;
      ready = ready;
    };
    extends = grown_old root s own tr table idx f path slot;
    reached = grown_new root s own tr table idx f path slot;
    is_present = entry.0;
    leads = entry.1;
    same = λ a p j h o.
        linked_old s.tables table idx f ne a j (used_ne root s own tr table idx f path slot a p h)
          o;
    walks = linked_walks root s own tr table idx f path slot;
  }
    where
      nothing : (p : List ℕ) → own f ≡ some p → ⊥
      nothing p h =
          let same : f / 4096 ≡ fr.n = omega (arith, fr.aligned) in
          let taken : locked s.pmem fr.n ≡ true = ap (locked s.pmem) (sym same) ∙ tr.held f p h in
          let free : locked s.pmem fr.n ≡ false = fr.was_free in cc

      slot : Slot own s.tables table idx f path
      slot = record {
        here = here;
        deep = deep;
        absent = off;
        unused = elim (Option-cases (own f)) [ inl e ↦ e | inr (p, e) ↦ absurd (nothing p e) ];
        low = omega (arith, fr.aligned, fr.below, tr.ready.low);
        n = fr.n;
        aligned = fr.aligned;
      }

      ne : f ≢ table
      ne = fresh_ne root s own tr table idx f path slot

      entry :
          ((linked s.tables table idx f table idx).present ≡ true)
          × (child (linked s.tables table idx f table idx) ≡ f)
      entry = linked_entry s.tables table idx f ne fr.n fr.aligned slot.low

      ready : IsReady q
      ready = rw fr.after (record {
        within = omega (arith, fr.below, (lock_frame-Kept fr.n s.pmem).frames);
        low = omega (arith, tr.ready.low, (lock_frame-Kept fr.n s.pmem).frames);
      })

      held : (a : ℕ) (p : List ℕ) → grown own f idx path a ≡ some p → locked q (a / 4096) ≡ true
      held a p h =
          ap (λ (x : PMem). locked x (a / 4096)) fr.after
          ∙ locked-lock_frame s.pmem fr.n (a / 4096)
          ∙ ground (arith, tr.held a p, fr.aligned)

attach-some :
    (table idx : ℕ) (t : Tables) (o : Option (ℕ × PMem)) {c : ℕ} {s' : Space}
    → attach table idx t o ≡ some (c, s')
    → (o ≡ some (c, s'.pmem)) × (c ≢ 0) × (s'.tables ≡ linked t table idx c)
unfolding attach
attach-some table idx t none h = cc
attach-some table idx t (some (f, q)) {c} {s'} h = elim (Bool-cases (f == 0)) [
  | inl nil ↦ let stopped : ◌≡◌ {A = Option (ℕ × Space)} none (some (c, s')) = rw nil at h in cc
  | inr ne ↦
      let o : ℕ × Space = (f, record { pmem = q; tables = linked t table idx f }) in
      let pair : o ≡ (c, s') = some-injective _ _ (rw ne at h) in
      let f_eq : f ≡ c = ap (λ (x : ℕ × Space). x.0) pair in
      (
        ap (λ (x : ℕ × Space). some (x.0, x.1.pmem)) pair,
        rw (← f_eq) (ground arith),
        ap (λ (x : ℕ × Space). x.1.tables) (sym pair) ∙ ap (linked t table idx) f_eq,
      )
]

descend_on :
    (table idx : ℕ) (s : Space)
    → (s.tables table idx).present ≡ true
    → descend table idx s ≡ some (child (s.tables table idx), s)
unfolding descend
descend_on table idx s h = ground arith

descend_off :
    (table idx : ℕ) (s : Space)
    → (s.tables table idx).present ≡ false
    → descend table idx s ≡ attach table idx s.tables (request_frame s.pmem)
unfolding descend
descend_off table idx s h = ground arith

-- Where one level of `allocate_page` succeeds, the tables are a tree again, the entry leads to the
-- table that it returned, and every walk leads where it led before.
pub descend-Level :
    (root : ℕ) (s : Space) (own : Owner) (table idx : ℕ) (path : List ℕ) {c : ℕ} {s' : Space}
    → descend table idx s ≡ some (c, s')
    → IsTree root s own
    → own table ≡ some path
    → length path < 3
    → Level root table idx path own s c s'
descend-Level root s own table idx path {c} {s'} h tr here deep =
    elim (Bool-cases (s.tables table idx).present) [
      | inl on ↦
          let pair : ◌≡◌ {A = ℕ × Space} (child (s.tables table idx), s) (c, s') =
            some-injective _ _ (sym (descend_on table idx s on) ∙ h) in
          subst (λ (o : ℕ × Space). Level root table idx path own s o.0 o.1) pair
            (present-Level root s own tr table idx path here deep on)
      | inr off ↦
          let (asked, nz, made) =
            attach-some table idx s.tables (request_frame s.pmem)
              (sym (descend_off table idx s off) ∙ h) in
          subst (λ (t : Tables). Level root table idx path own s c (record s' { tables = t }))
            (sym made)
            (absent-Level root s own tr table idx path here deep off
              (request_frame-Fresh asked nz tr.ready))
    ]
