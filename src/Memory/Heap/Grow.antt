-- ===== src/Memory/Heap/Grow.antt =====
-- How `malloc` of kernel/src/memory/heap.cpp links new pages into the list of cells.
use print_os.Base.{
  ℕ, zero, suc, ◌+◌, ◌-◌, ◌*◌, ◌/◌, ◌≤◌, ◌<◌, ◌≡◌, refl, sym, ap, subst, ◌∙◌, ◌≢◌, inl, inr, Bool,
  true, false, ◌&&◌, List, [], ◌∷◌, ◌++◌, ◌==◌, ltb, if◌then◌else◌, arith, Option, some, none,
  length, length-append, Bool-cases,
}
use print_os.Memory.PMem.{PMem, request_frames}
use print_os.Memory.Paging.{Space}
use print_os.Memory.Heap.{
  Heap, Headers, BlockHeader, put, set_prev, close_loop, find_block_close_before_addr, map_pages,
  link, extend, find_free_block, malloc,
}
use print_os.Memory.Heap.Chain.{
  Cell, header, end_of, Seg, outside, is_apart, Represents, is_apart_middle, outside-append,
  is_apart-right, Seg-append, append-Seg, snoc,
}
use print_os.Memory.Heap.Malloc.{
  no_fit, Seg-nonzero, fits, find_loop-fit, find_loop-no_fit, take_block-Represents,
}
use print_os.Memory.Heap.Edit.{Seg-put, set_prev-Seg, set_prev-before, set_prev-other, carve}

put_other : (hs : Headers) (a x : ℕ) (b : BlockHeader) → a ≢ x → put hs a b x ≡ hs x
unfolding put
put_other hs a x b ne = ground arith

-- The walk ends at one of the cells, with fuel for them and the null pointer behind.
close_loop-Seg :
    (hs : Headers) (p a addr fuel : ℕ) (c : Cell) (cs : List Cell) (q : ℕ)
    → Seg hs p a (c ∷ cs) q 0
    → length cs < fuel
    → (xs : List Cell) × (d : Cell) × (ys : List Cell) × (close_loop hs addr fuel a ≡ some d.addr)
      × (c ∷ cs ≡ xs ++ d ∷ ys)
unfolding close_loop Seg
close_loop-Seg hs p a addr zero c cs q s l = absurd (omega arith)
close_loop-Seg hs p a addr (suc k) c [] q (n, e, z, h, (f, g)) l = ([], c, [], ground arith, refl)
close_loop-Seg hs p a addr (suc k) c (d ∷ ds) q (n, e, z, h, s) l =
    elim (Bool-cases (ltb a addr && ltb n addr)) [
      | inl here ↦ ([], c, d ∷ ds, ground arith, refl)
      | inr on ↦
          let (xs, x, ys, r, split) = close_loop-Seg hs a n addr k d ds q s (omega arith) in
          (c ∷ xs, x, ys, ground arith, ap (λ l. c ∷ l) split)
    ]

-- A cell `g` apart from all the others, linked in behind `p`.
module _ (hs : Headers) (start : ℕ) (xs : List Cell) (p g : Cell) (ys : List Cell) (q : ℕ)
    (apart : is_apart (xs ++ p ∷ ys) ≡ true)
    (clear : outside g.addr (end_of g) (xs ++ p ∷ ys) ≡ true) (g_free : g.is_free ≡ true)
    (g_nonzero : g.addr ≢ 0) (m n k : ℕ) (before : Seg hs 0 start xs m n) (here : n ≡ p.addr)
    (nz : n ≢ 0) (head : hs n ≡ header m k p) (behind : Seg hs n k ys q 0) where
  clear_left : outside g.addr (end_of g) xs ≡ true
  clear_left = ground (arith, outside-append g.addr (end_of g) xs (p ∷ ys))

  clear_right : outside g.addr (end_of g) (p ∷ ys) ≡ true
  clear_right = ground (arith, outside-append g.addr (end_of g) xs (p ∷ ys))

  clear_ys : outside g.addr (end_of g) ys ≡ true
  unfolding outside
  clear_ys = ground (arith, clear_right)

  g_not_p : g.addr ≢ n
  unfolding outside
  g_not_p = ground (arith, clear_right)

  p_left : outside p.addr (end_of p) xs ≡ true
  p_left = ground (arith, is_apart_middle xs p ys)

  p_right : outside p.addr (end_of p) ys ≡ true
  p_right = ground (arith, is_apart_middle xs p ys)

  rest_apart : is_apart (xs ++ ys) ≡ true
  rest_apart = ground (arith, is_apart_middle xs p ys)

  with_g : Headers
  with_g = put hs g.addr (header n k g)

  with_p : Headers
  unfolding with_g
  with_p = put with_g n (header m g.addr p)

  link-eq : link g.addr g.bytes n hs ≡ set_prev with_p k g.addr
  unfolding link with_p with_g put
  link-eq =
      let fresh = λ (next : ℕ) (free : Bool).
        put hs g.addr (record { prev = n; next = next; is_free = free; bytes = g.bytes }) in
      let step = λ (next : ℕ) (b : BlockHeader) (free : Bool).
        set_prev (put (fresh next free) n (record b { next = g.addr })) next g.addr in
      let seen : fresh (hs n).next true n ≡ header m k p = put_other hs g.addr n _ g_not_p ∙ head in
      ap (λ b. step (hs n).next b true) seen
      ∙ ap (λ x. step x (header m k p) true) (ap (λ (b : BlockHeader). b.next) head)
      ∙ ap (λ f. step k (header m k p) f) (sym g_free)

  linked-Seg : (q' : ℕ) × Seg (set_prev with_p k g.addr) 0 start (xs ++ p ∷ g ∷ ys) q' 0
  unfolding with_p with_g Seg put
  linked-Seg =
      let bg = header n k g in
      let bp = header m g.addr p in
      let t1 =
        Seg-put hs g.addr (end_of g) g.addr bg n k ys q 0 (omega arith) (omega arith) clear_ys
          behind in
      let t2 =
        Seg-put with_g p.addr (end_of p) n bp n k ys q 0 (omega arith) (omega arith) p_right t1 in
      let s1 =
        Seg-put hs g.addr (end_of g) g.addr bg 0 start xs m n (omega arith) (omega arith) clear_left
          before in
      let s2 =
        Seg-put with_g p.addr (end_of p) n bp 0 start xs m n (omega arith) (omega arith) p_left
          s1 in
      let (q', t3) = set_prev-Seg with_p n k ys q g.addr (is_apart-right xs ys rest_apart) t2 in
      let s3 = set_prev-before with_p n k ys q g.addr 0 start xs m n rest_apart t2 s2 in
      let at_n : set_prev with_p k g.addr n ≡ bp =
        ap (λ x. set_prev with_p k g.addr x) here
        ∙ set_prev-other with_p n k ys q g.addr p p_right t2
        ∙ ap with_p (sym here)
        ∙ ground arith in
      let at_g : set_prev with_p k g.addr g.addr ≡ bg =
        set_prev-other with_p n k ys q g.addr g clear_ys t2 ∙ ground (arith, g_not_p) in
      (
        q',
        append-Seg (set_prev with_p k g.addr) 0 start xs (p ∷ g ∷ ys) m n q' 0 s3
            (g.addr, here, nz, at_n, (k, refl, g_nonzero, at_g, t3)),
      )

-- The pages that `malloc` adds for a request, as one free cell.
abbrev pub pages : ℕ → ℕ
pages bytes = bytes / 4096 + 1

abbrev pub grown_cell : (bytes block : ℕ) → Cell
grown_cell bytes block = record { addr = block; is_free = true; bytes = pages bytes * 4096 - 32 }

insert-apart :
    (xs : List Cell) (p g : Cell) (ys : List Cell)
    → is_apart (xs ++ p ∷ ys) ≡ true
    → outside g.addr (end_of g) (xs ++ p ∷ ys) ≡ true
    → is_apart (xs ++ p ∷ g ∷ ys) ≡ true
unfolding outside
insert-apart xs p g ys a o =
    let a' = subst (λ l. is_apart l ≡ true) (sym (snoc xs p ys)) a in
    let o' = subst (λ l. outside g.addr (end_of g) l ≡ true) (sym (snoc xs p ys)) o in
    let t : is_apart ((xs ++ p ∷ []) ++ g ∷ ys) ≡ true = ground (
      arith,
      is_apart_middle (xs ++ p ∷ []) g ys,
      outside-append g.addr (end_of g) (xs ++ p ∷ []) ys,
    ) in
    subst (λ l. is_apart l ≡ true) (snoc xs p (g ∷ ys)) t

link-Represents :
    (h : Heap) (xs : List Cell) (p g : Cell) (ys : List Cell) (s : Space)
    → Represents h (xs ++ p ∷ ys)
    → outside g.addr (end_of g) (xs ++ p ∷ ys) ≡ true
    → g.is_free ≡ true
    → g.addr ≢ 0
    → Represents
        (record h { headers = link g.addr g.bytes p.addr h.headers; space = s })
        (xs ++ p ∷ g ∷ ys)
unfolding Seg
link-Represents h xs p g ys s r o f z =
    let (m, n, before, (k, here, nz, head, behind)) =
      Seg-append h.headers 0 h.blocks xs (p ∷ ys) r.last 0 r.seg in
    let (q, seg) =
      linked-Seg h.headers h.blocks xs p g ys r.last r.apart o f z m n k before here nz head
        behind in
    let eq =
      link-eq h.headers h.blocks xs p g ys r.last r.apart o f z m n k before here nz head behind in
    record {
      last = q;
      seg =
          subst (λ a. Seg (link g.addr g.bytes a h.headers) 0 h.blocks (xs ++ p ∷ g ∷ ys) q 0) here
            (subst (λ (t : Headers). Seg t 0 h.blocks (xs ++ p ∷ g ∷ ys) q 0) (sym eq) seg);
      apart = insert-apart xs p g ys r.apart o;
    }

no_fit-append :
    (bytes : ℕ) (xs ys : List Cell) → no_fit bytes (xs ++ ys) ≡ (no_fit bytes xs && no_fit bytes ys)
unfolding no_fit
no_fit-append bytes [] ys = refl
no_fit-append bytes (x ∷ xs) ys = ground (arith, no_fit-append bytes xs ys)

-- The branch of `malloc` for when no block is sufficient, with the place of the new cell given.
extend-eq :
    (root fuel bytes : ℕ) (h : Heap) (xs : List Cell) (p : Cell) (ys : List Cell) {block : ℕ}
    {q : PMem} {s : Space}
    → Represents h (xs ++ p ∷ ys)
    → no_fit bytes (xs ++ p ∷ ys) ≡ true
    → close_loop h.headers block fuel h.blocks ≡ some p.addr
    → request_frames (pages bytes) h.space.pmem ≡ some (block, q)
    → map_pages root block (pages bytes) 0 (record h.space { pmem = q }) ≡ some s
    → block ≢ 0
    → bytes + 32 ≤ pages bytes * 4096
    → outside block (block + pages bytes * 4096) (xs ++ p ∷ ys) ≡ true
    → length xs + 1 < fuel
    → let h' : Heap = record h {
      headers = link block (pages bytes * 4096 - 32) p.addr h.headers;
      space = s;
    } in
      (extend root fuel bytes h ≡ some (block, h'))
      × Represents h' (xs ++ p ∷ grown_cell bytes block ∷ ys)
unfolding extend find_block_close_before_addr find_free_block
extend-eq root fuel bytes h xs p ys {block} {q} {s} r u close e m z l o fu =
    let g = grown_cell bytes block in
    let to : block + pages bytes * 4096 ≡ end_of g = omega arith in
    let o' = subst (λ e. outside block e (xs ++ p ∷ ys) ≡ true) to o in
    let rep = link-Represents h xs p g ys s r o' refl z in
    let hs' = link block (pages bytes * 4096 - 32) p.addr h.headers in
    let seg = subst (λ l. Seg hs' 0 h.blocks l rep.last 0) (sym (snoc xs p (g ∷ ys))) rep.seg in
    let u' : no_fit bytes ((xs ++ p ∷ []) ++ ys) ≡ true =
      subst (λ l. no_fit bytes l ≡ true) (sym (snoc xs p ys)) u in
    let u1 : no_fit bytes (xs ++ p ∷ []) ≡ true =
      ground (arith, no_fit-append bytes (xs ++ p ∷ []) ys) in
    let fit : fits bytes g ≡ true = ground arith in
    let len : length (xs ++ p ∷ []) < fuel = omega (arith, length-append xs (p ∷ [])) in
    let found =
      find_loop-fit hs' 0 h.blocks bytes fuel (xs ++ p ∷ []) g ys rep.last 0 seg u1 fit len in
    let start : (h.blocks == 0) ≡ false =
      ground (arith, Seg-nonzero h.headers 0 h.blocks xs p ys r.last 0 r.seg) in
    let not_null : (block == 0) ≡ false = ground arith in
    (rw (e, m, close, start, found, not_null) refl, rep)

-- Where no cell fits a request of at least a byte, and the run of frames that `malloc` then asks
-- for is given and mapped, `malloc` links it in behind some cell `p` as a free one and takes the
-- request from it. The run begins at `block`, which is not null, lies apart from all cells, and has
-- room for the request and a header; there is fuel for the cells and one more. The heap is again
-- linked both ways and disjoint, and the other cells are as before.
pub malloc-grow :
    (root fuel bytes : ℕ) (h : Heap) (c : Cell) (cs : List Cell) {block : ℕ} {q : PMem} {s : Space}
    → Represents h (c ∷ cs)
    → 0 < bytes
    → no_fit bytes (c ∷ cs) ≡ true
    → request_frames (pages bytes) h.space.pmem ≡ some (block, q)
    → map_pages root block (pages bytes) 0 (record h.space { pmem = q }) ≡ some s
    → block ≢ 0
    → bytes + 32 ≤ pages bytes * 4096
    → outside block (block + pages bytes * 4096) (c ∷ cs) ≡ true
    → length cs + 1 < fuel
    → (xs : List Cell) × (p : Cell) × (ys : List Cell) × (h' : Heap) × (c ∷ cs ≡ xs ++ p ∷ ys)
      × (malloc root fuel bytes h ≡ some (block + 32, h'))
      × Represents h' (xs ++ p ∷ carve bytes (grown_cell bytes block) ys)
      × (h'.space ≡ s)
unfolding malloc find_free_block
malloc-grow root fuel bytes h c cs {block} {q} {s} r b u e m z l o fu =
    let (xs, p, ys, close, split) =
      close_loop-Seg h.headers 0 h.blocks block fuel c cs r.last r.seg (omega arith) in
    let g = grown_cell bytes block in
    let all : length (c ∷ cs) ≡ length (xs ++ p ∷ ys) = ap length split in
    let len : length xs + 1 < fuel = omega (arith, all, length-append xs (p ∷ ys)) in
    let (ext, rep) =
      extend-eq root fuel bytes h xs p ys (subst (Represents h) split r)
        (subst (λ l. no_fit bytes l ≡ true) split u) close e m z l
        (subst (λ l. outside block (block + pages bytes * 4096) l ≡ true) split o) len in
    let h1 : Heap = record h {
      headers = link block (pages bytes * 4096 - 32) p.addr h.headers;
      space = s;
    } in
    let (h', t, rep', same) =
      take_block-Represents bytes h1 (xs ++ p ∷ []) g ys
        (subst (Represents h1) (sym (snoc xs p (g ∷ ys))) rep) (omega arith) in
    let start = Seg-nonzero h.headers 0 h.blocks [] c cs r.last 0 r.seg in
    let none_found =
      find_loop-no_fit h.headers 0 h.blocks bytes fuel c cs r.last r.seg u (omega arith) in
    let got : ◌≡◌ {A = Option ℕ} (if bytes == 0 then none else find_free_block fuel bytes h)
        (some 0) =
      ground (arith, none_found) in
    (
      xs,
      p,
      ys,
      h',
      split,
      rw (got, ext) t,
      subst (Represents h') (snoc xs p (carve bytes g ys)) rep',
      same,
    )
