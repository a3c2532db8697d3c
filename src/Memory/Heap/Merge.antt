-- ===== src/Memory/Heap/Merge.antt =====
-- The merge with the next block in `free` of kernel/src/memory/heap.cpp on the list of cells.
use print_os.Base.{
  ℕ, ◌+◌, ◌≡◌, sym, ap, subst, ◌∙◌, ◌≢◌, inl, inr, Bool, true, false, not, ◌&&◌, ◌||◌, List, [],
  ◌∷◌, ◌++◌, ◌==◌, if◌then◌else◌, arith, Bool-cases, refl,
}
use print_os.Memory.Heap.{
  Heap, Headers, BlockHeader, put, set_prev, merge_next, are_blocks_contiguous,
  get_total_block_size,
}
use print_os.Memory.Heap.Chain.{
  Cell, header, end_of, Seg, outside, is_apart, Represents, outside-join, is_apart_middle,
  Seg-append, is_apart-right, append-Seg,
}
use print_os.Memory.Heap.Edit.{Seg-put, set_prev-Seg, set_prev-before, set_prev-other}

-- Two free cells, of which the second begins where the first ends, are one after `free`.
abbrev pub joins : Cell → Cell → Bool
joins c d = c.is_free && d.is_free && (end_of c == d.addr)

abbrev pub join : Cell → Cell → Cell
join c d = record c { bytes = c.bytes + (32 + d.bytes) }

unfoldable pub absorb : Cell → List Cell → List Cell
absorb c [] = c ∷ []
absorb c (d ∷ ds) = if joins c d then join c d ∷ ds else c ∷ d ∷ ds

pub absorb-apart :
    (xs : List Cell) (c : Cell) (ys : List Cell)
    → is_apart (xs ++ c ∷ ys) ≡ true
    → is_apart (xs ++ absorb c ys) ≡ true
unfolding absorb is_apart outside
absorb-apart xs c [] a = a
absorb-apart xs c (d ∷ ds) a =
    let ax : is_apart (xs ++ d ∷ ds) ≡ true = ground (arith, is_apart_middle xs c (d ∷ ds)) in
    let o1 : outside c.addr (end_of c) xs ≡ true = ground (arith, is_apart_middle xs c (d ∷ ds)) in
    let o2 : outside c.addr (end_of c) ds ≡ true = ground (arith, is_apart_middle xs c (d ∷ ds)) in
    let o3 : outside d.addr (end_of d) xs ≡ true = ground (arith, is_apart_middle xs d ds) in
    let o4 : outside d.addr (end_of d) ds ≡ true = ground (arith, is_apart_middle xs d ds) in
    elim (Bool-cases (joins c d)) [
      | inl j ↦
          let at : end_of c ≡ d.addr = ground arith in
          let u1 = subst (λ x. outside c.addr x xs ≡ true) at o1 in
          let u2 = subst (λ x. outside c.addr x ds ≡ true) at o2 in
          let ends : end_of d ≡ end_of (join c d) = omega arith in
          let v1 =
            subst (λ x. outside c.addr x xs ≡ true) ends
              (outside-join c.addr d.addr (end_of d) xs u1 o3) in
          let v2 =
            subst (λ x. outside c.addr x ds ≡ true) ends
              (outside-join c.addr d.addr (end_of d) ds u2 o4) in
          let ad : is_apart (xs ++ ds) ≡ true = ground (arith, is_apart_middle xs d ds) in
          let al : is_apart (xs ++ join c d ∷ ds) ≡ true =
            ground (arith, is_apart_middle xs (join c d) ds) in
          let shape : absorb c (d ∷ ds) ≡ join c d ∷ ds = ground arith in
          subst (λ zs. is_apart (xs ++ zs) ≡ true) (sym shape) al
      | inr j ↦ ground arith
    ]

put_same : (hs : Headers) (a : ℕ) (b : BlockHeader) → put hs a b a ≡ b
unfolding put
put_same hs a b = ground arith

if_true : {A : Type 0} {b : Bool} (x y : A) → b ≡ true → (if b then x else y) ≡ x
if_true x y h = ap (λ t. if t then x else y) h

if_false : {A : Type 0} {b : Bool} (x y : A) → b ≡ false → (if b then x else y) ≡ y
if_false x y h = ap (λ t. if t then x else y) h

-- `merge_next` with the two headers that it reads as arguments.
merge_step : Headers → (a : ℕ) → BlockHeader → BlockHeader → Headers
unfolding are_blocks_contiguous get_total_block_size
merge_step hs a b n =
    if not (b.next == 0)
      && n.is_free
      && (if a == 0 || b.next == 0 then false else a + (32 + b.bytes) == b.next)
    then set_prev (put hs a (record b { bytes = b.bytes + (32 + n.bytes); next = n.next })) n.next a
    else hs

pub merge_next-join :
    (hs : Headers) (p a n k : ℕ) (c d : Cell)
    → a ≡ c.addr
    → a ≢ 0
    → n ≢ 0
    → n ≡ d.addr
    → hs a ≡ header p n c
    → hs n ≡ header a k d
    → joins c d ≡ true
    → merge_next a hs ≡ set_prev (put hs a (header p k (join c d))) k a
unfolding merge_next are_blocks_contiguous get_total_block_size merge_step
merge_next-join hs p a n k c d e z z' e' h h' j =
    ap (λ b. merge_step hs a b (hs b.next)) h
    ∙ ap (λ x. merge_step hs a (header p n c) x) h'
    ∙ if_true _ hs (ground arith)

merge_next-keep :
    (hs : Headers) (p a n k : ℕ) (c d : Cell)
    → a ≡ c.addr
    → n ≡ d.addr
    → c.is_free ≡ true
    → hs a ≡ header p n c
    → hs n ≡ header a k d
    → joins c d ≡ false
    → merge_next a hs ≡ hs
unfolding merge_next are_blocks_contiguous get_total_block_size merge_step
merge_next-keep hs p a n k c d e e' f h h' j =
    ap (λ b. merge_step hs a b (hs b.next)) h
    ∙ ap (λ x. merge_step hs a (header p n c) x) h'
    ∙ if_false
        {b = not (n == 0)
          && d.is_free
          && (if a == 0 || n == 0 then false else a + (32 + c.bytes) == n)}
        (set_prev (put hs a (header p k (join c d))) k a) hs (ground arith)

merge_next-last : (hs : Headers) (p a : ℕ) (c : Cell) → hs a ≡ header p 0 c → merge_next a hs ≡ hs
unfolding merge_next
merge_next-last hs p a c h = ground arith

-- Two cells that join, between the cells `xs` and `ds`.
module _ (hs : Headers) (start : ℕ) (xs : List Cell) (c d : Cell) (ds : List Cell) (q : ℕ)
    (apart : is_apart (xs ++ c ∷ d ∷ ds) ≡ true) (m n k k' : ℕ) (before : Seg hs 0 start xs m n)
    (here : n ≡ c.addr) (nz : n ≢ 0) (behind : Seg hs k k' ds q 0) where
  left_outside : outside c.addr (end_of c) xs ≡ true
  left_outside = ground (arith, is_apart_middle xs c (d ∷ ds))

  right_outside : outside c.addr (end_of c) ds ≡ true
  unfolding outside
  right_outside = ground (arith, is_apart_middle xs c (d ∷ ds))

  others_apart : is_apart (xs ++ ds) ≡ true
  others_apart =
      let ad : is_apart (xs ++ d ∷ ds) ≡ true = ground (arith, is_apart_middle xs c (d ∷ ds)) in
      ground (arith, is_apart_middle xs d ds)

  joined : Headers
  joined = put hs n (header m k' (join c d))

  joined-Seg : (q' : ℕ) × Seg (set_prev joined k' n) 0 start (xs ++ join c d ∷ ds) q' 0
  unfolding joined Seg
  joined-Seg =
      let b = header m k' (join c d) in
      let t1 =
        Seg-put hs c.addr (end_of c) n b k k' ds q 0 (omega arith) (omega arith) right_outside
          behind in
      let s1 =
        Seg-put hs c.addr (end_of c) n b 0 start xs m n (omega arith) (omega arith) left_outside
          before in
      let (q', t2) = set_prev-Seg joined k k' ds q n (is_apart-right xs ds others_apart) t1 in
      let s2 = set_prev-before joined k k' ds q n 0 start xs m n others_apart t1 s1 in
      let at_n : set_prev joined k' n n ≡ b =
        ap (λ x. set_prev joined k' n x) here
        ∙ set_prev-other joined k k' ds q n c right_outside t1
        ∙ ap joined (sym here)
        ∙ put_same hs n b in
      (
        q',
        append-Seg (set_prev joined k' n) 0 start xs (join c d ∷ ds) m n q' 0 s2
            (k', here, nz, at_n, t2),
      )

-- A heap with the headers and the list that a merge makes of it.
re-Represents :
    (h : Heap) (xs ys : List Cell) (c : Cell) (zs : List Cell) (hs : Headers) (a q : ℕ)
    → merge_next a h.headers ≡ hs
    → a ≡ c.addr
    → absorb c ys ≡ zs
    → is_apart (xs ++ c ∷ ys) ≡ true
    → Seg hs 0 h.blocks (xs ++ zs) q 0
    → Represents (record h { headers = merge_next c.addr h.headers }) (xs ++ absorb c ys)
re-Represents h xs ys c zs hs a q eq here shape apart seg = record {
  last = q;
  seg =
      subst (λ x. Seg (merge_next x h.headers) 0 h.blocks (xs ++ absorb c ys) q 0) here
        (subst (λ l. Seg (merge_next a h.headers) 0 h.blocks (xs ++ l) q 0) (sym shape)
          (subst (λ (t : Headers). Seg t 0 h.blocks (xs ++ zs) q 0) (sym eq) seg));
  apart = absorb-apart xs c ys apart;
}

-- The merge with the next block makes the two cells one, if both are free and they meet.
pub merge_next-Represents :
    (h : Heap) (xs : List Cell) (c : Cell) (ys : List Cell)
    → Represents h (xs ++ c ∷ ys)
    → c.is_free ≡ true
    → Represents (record h { headers = merge_next c.addr h.headers }) (xs ++ absorb c ys)
unfolding absorb Seg joined
merge_next-Represents h xs c [] r fr =
    let (m, n, before, (k, here, nz, head, (e, f))) =
      Seg-append h.headers 0 h.blocks xs (c ∷ []) r.last 0 r.seg in
    let same = merge_next-last h.headers m n c (head ∙ ap (λ x. header m x c) e) in
    re-Represents h xs [] c (c ∷ []) h.headers n r.last same here refl r.apart r.seg
merge_next-Represents h xs c (d ∷ ds) r fr =
    let hs = h.headers in
    let (m, n, before, (k, here, nz, head, (k', here', nz', head', behind))) =
      Seg-append hs 0 h.blocks xs (c ∷ d ∷ ds) r.last 0 r.seg in
    elim (Bool-cases (joins c d)) [
      | inl j ↦
          let (q, seg) =
            joined-Seg hs h.blocks xs c d ds r.last r.apart m n k k' before here nz behind in
          re-Represents h xs (d ∷ ds) c (join c d ∷ ds) _ n q
            (merge_next-join hs m n k k' c d here nz nz' here' head head' j) here (ground arith)
            r.apart seg
      | inr j ↦
          re-Represents h xs (d ∷ ds) c (c ∷ d ∷ ds) hs n r.last
            (merge_next-keep hs m n k k' c d here here' fr head head' j) here (ground arith) r.apart
            r.seg
    ]
