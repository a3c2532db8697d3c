-- ===== src/Memory/Heap/Free.antt =====
-- `free` of kernel/src/memory/heap.cpp on the list of cells.
use print_os.Base.{
  ℕ, ◌+◌, ◌-◌, ◌%◌, ◌<◌, ◌≡◌, refl, sym, ap, subst, ◌∙◌, inl, inr, true, false, List, [], ◌∷◌, ◌++◌,
  ◌==◌, if◌then◌else◌, arith, Option, some, none, Bool-cases, ◌>>=◌, u64_mod,
}
use print_os.Memory.Heap.{Heap, Headers, put, merge_next, merge_prev, free_block, free}
use print_os.Memory.Heap.Chain.{snoc, Cell, header, Seg, Represents, Seg-append}
use print_os.Memory.Heap.Edit.{keep-Seg}
use print_os.Memory.Heap.Malloc.{keep-apart}
use print_os.Memory.Heap.Merge.{joins, join, absorb, merge_next-Represents}
use print_os.Memory.Heap.MergePrev.{merge_prev-keep, merge_prev-fault, merge_prev-join}

abbrev pub freed : Cell → Cell
freed c = record c { is_free = true }

abbrev pub with_headers : Heap → Headers → Heap
with_headers h hs = record h { headers = hs }

-- What the merge with the cell before makes of `p` and those behind it: `none` where the second
-- is the last of the list and is merged.
unfoldable pub glue : Cell → List Cell → Option (List Cell)
glue p [] = some (p ∷ [])
glue p (c ∷ []) = if joins p c then none else some (p ∷ c ∷ [])
glue p (c ∷ d ∷ ds) = some (absorb p (c ∷ d ∷ ds))

-- How `free` of `ptr` ends: in the heap of the cells `xs` and those given, or in a fault.
unfoldable pub Ends : (ptr : ℕ) → Heap → List Cell → Option (List Cell) → Type 0
Ends ptr h xs none = free ptr h ≡ none
Ends ptr h xs (some cells) =
    (h' : Heap) × (free ptr h ≡ some h') × Represents h' (xs ++ cells) × (h'.space ≡ h.space)

mark-Represents :
    (h : Heap) (xs : List Cell) (c : Cell) (ys : List Cell)
    → Represents h (xs ++ c ∷ ys)
    → Represents
        (with_headers h (put h.headers c.addr (record (h.headers c.addr) { is_free = true })))
        (xs ++ freed c ∷ ys)
unfolding Seg
mark-Represents h xs c ys r =
    let (m, n, before, (k, here, nz, head, behind)) =
      Seg-append h.headers 0 h.blocks xs (c ∷ ys) r.last 0 r.seg in
    let seg =
      keep-Seg h.headers h.blocks xs c ys r.last r.apart m n k before here nz head behind true in
    record {
      last = r.last;
      seg =
          subst
            (λ a.
              Seg (put h.headers a (record (h.headers a) { is_free = true })) 0 h.blocks
                (xs ++ freed c ∷ ys) r.last 0)
            here seg;
      apart = keep-apart true xs c ys r.apart;
    }

-- The headers after the first two steps of `free`.
abbrev merged : Heap → ℕ → Headers
merged h a = merge_next a (put h.headers a (record (h.headers a) { is_free = true }))

merged-Represents :
    (h : Heap) (xs : List Cell) (c : Cell) (ys : List Cell)
    → Represents h (xs ++ c ∷ ys)
    → Represents (with_headers h (merged h c.addr)) (xs ++ absorb (freed c) ys)
merged-Represents h xs c ys r =
    merge_next-Represents _ xs (freed c) ys (mark-Represents h xs c ys r) refl

free-eq :
    (h : Heap) (a : ℕ)
    → a + 32 < u64_mod
    → free (a + 32) h ≡ (merge_prev a (merged h a) >>= (λ hs. some (with_headers h hs)))
unfolding free free_block
free-eq h a l =
    let back : (a + 32 + u64_mod - 32) % u64_mod ≡ a = omega arith in
    let nz : (a + 32 == 0) ≡ false = ground arith in rw (nz, back)

absorb-shape :
    (c : Cell) (ys : List Cell)
    → (d : Cell) × (ds : List Cell) × (absorb c ys ≡ d ∷ ds)
      × (d.addr ≡ c.addr)
      × (d.is_free ≡ c.is_free)
unfolding absorb
absorb-shape c [] = (c, [], refl, refl, refl)
absorb-shape c (y ∷ ys) = elim (Bool-cases (joins c y)) [
  | inl j ↦ (join c y, ys, ground arith, refl, refl)
  | inr j ↦ (c, y ∷ ys, ground arith, refl, refl)
]

first_kept : (hs : Headers) (a k : ℕ) (c : Cell) → hs a ≡ header 0 k c → merge_prev a hs ≡ some hs
unfolding merge_prev
first_kept hs a k c e = ground arith

-- `free` of the first block of the heap succeeds, if its data lie below 2 ^ 64. The heap is again
-- linked both ways and disjoint; in its list the block is free, and has taken in the next one if
-- that is free and begins where it ends.
pub free-first :
    (h : Heap) (c : Cell) (ys : List Cell)
    → Represents h (c ∷ ys)
    → c.addr + 32 < u64_mod
    → Ends (c.addr + 32) h [] (some (absorb (freed c) ys))
unfolding Ends Seg
free-first h c ys r l =
    let (d, ds, shape, at, fr) = absorb-shape (freed c) ys in
    let r' = merged-Represents h [] c ys r in
    let seg = subst (λ zs. Seg (merged h c.addr) 0 h.blocks zs r'.last 0) shape r'.seg in
    let head = ap (merged h c.addr) (sym (seg.1 ∙ at)) ∙ seg.3 in
    let kept = first_kept (merged h c.addr) c.addr seg.0 d head in
    (
      with_headers h (merged h c.addr),
      free-eq h c.addr l ∙ ap (λ o. o >>= (λ hs. some (with_headers h hs))) kept,
      r',
      refl,
    )

absorb-keep : (p c : Cell) (ds : List Cell) → joins p c ≡ false → absorb p (c ∷ ds) ≡ p ∷ c ∷ ds
unfolding absorb
absorb-keep p c ds j = ground arith

-- How the merge with the cell before ends.
module _ (h : Heap) (hs : Headers) (xs : List Cell) (p c : Cell) (ptr : ℕ) (fr : c.is_free ≡ true)
    (eq : free ptr h ≡ (merge_prev c.addr hs >>= (λ t. some (with_headers h t)))) where
  settle_some :
      (hs' : Headers) (cells : List Cell)
      → merge_prev c.addr hs ≡ some hs'
      → Represents (with_headers h hs') (xs ++ cells)
      → Ends ptr h xs (some cells)
  unfolding Ends
  settle_some hs' cells e r =
      (with_headers h hs', eq ∙ ap (λ o. o >>= (λ t. some (with_headers h t))) e, r, refl)

  settle_none : merge_prev c.addr hs ≡ none → Ends ptr h xs none
  unfolding Ends
  settle_none e = eq ∙ ap (λ o. o >>= (λ t. some (with_headers h t))) e

  settle :
      (ds : List Cell)
      → Represents (with_headers h hs) (xs ++ p ∷ c ∷ ds)
      → Ends ptr h xs (glue p (c ∷ ds))
  unfolding glue Seg
  settle [] r =
      let (m, n, before, (k, here, nz, head, (k', here', nz', head', (e, f)))) =
        Seg-append hs 0 h.blocks xs (p ∷ c ∷ []) r.last 0 r.seg in
      elim (Bool-cases (joins p c)) [
        | inl j ↦
            let fault =
              subst (λ a. merge_prev a hs ≡ none) here'
                (merge_prev-fault hs m n k k' p c here nz nz' here' head head' fr j e) in
            let shape : glue p (c ∷ []) ≡ none = ground arith in
            subst (Ends ptr h xs) (sym shape) (settle_none fault)
        | inr j ↦
            let kept =
              subst (λ a. merge_prev a hs ≡ some hs) here'
                (merge_prev-keep hs m n k k' p c here nz nz' here' head head' fr j) in
            let shape : glue p (c ∷ []) ≡ some (p ∷ c ∷ []) = ground arith in
            subst (Ends ptr h xs) (sym shape) (settle_some hs (p ∷ c ∷ []) kept r)
      ]
  settle (d ∷ ds) r =
      let (
        m,
        n,
        before,
        (k, here, nz, head, (k', here', nz', head', (k2, here2, nz2, head2, rest))),
      ) =
        Seg-append hs 0 h.blocks xs (p ∷ c ∷ d ∷ ds) r.last 0 r.seg in
      elim (Bool-cases (joins p c)) [
        | inl j ↦
            let got =
              subst (λ a. merge_prev a hs ≡ some (merge_next n hs)) here'
                (merge_prev-join hs m n k k' p c here nz nz' here' head head' fr j nz2) in
            let got' = subst (λ a. merge_prev c.addr hs ≡ some (merge_next a hs)) here got in
            let p_free : p.is_free ≡ true = ground arith in
            settle_some (merge_next p.addr hs) (absorb p (c ∷ d ∷ ds)) got'
              (merge_next-Represents (with_headers h hs) xs p (c ∷ d ∷ ds) r p_free)
        | inr j ↦
            let kept =
              subst (λ a. merge_prev a hs ≡ some hs) here'
                (merge_prev-keep hs m n k k' p c here nz nz' here' head head' fr j) in
            let shape : absorb p (c ∷ d ∷ ds) ≡ p ∷ c ∷ d ∷ ds = absorb-keep p c (d ∷ ds) j in
            subst (λ l. Ends ptr h xs (some l)) (sym shape) (settle_some hs (p ∷ c ∷ d ∷ ds) kept r)
      ]

-- `free` of a block `c` behind another one `p`, if its data lie below 2 ^ 64: `c` is made free and
-- takes in the next block if that is free and begins where it ends; then `p`, if it is free and
-- ends where `c` begins, takes in the result. The heap is again linked both ways and disjoint. But
-- if the result that `p` would take in is the last block, `free` faults: it writes to a null block.
pub free-behind :
    (h : Heap) (xs : List Cell) (p c : Cell) (ys : List Cell)
    → Represents h (xs ++ p ∷ c ∷ ys)
    → c.addr + 32 < u64_mod
    → Ends (c.addr + 32) h xs (glue p (absorb (freed c) ys))
free-behind h xs p c ys r l =
    let (d, ds, shape, at, fr) = absorb-shape (freed c) ys in
    let hs = merged h c.addr in
    let r' =
      merged-Represents h (xs ++ p ∷ []) c ys (subst (Represents h) (sym (snoc xs p (c ∷ ys))) r) in
    let r2 = subst (Represents (with_headers h hs)) (snoc xs p (absorb (freed c) ys)) r' in
    let r3 = subst (λ zs. Represents (with_headers h hs) (xs ++ p ∷ zs)) shape r2 in
    let eq = free-eq h c.addr l in
    let eq' =
      subst (λ a. free (c.addr + 32) h ≡ (merge_prev a hs >>= (λ t. some (with_headers h t))))
        (sym at) eq in
    subst (λ zs. Ends (c.addr + 32) h xs (glue p zs)) (sym shape)
      (settle h hs xs p d (c.addr + 32) fr eq' ds r3)
