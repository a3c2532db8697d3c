-- ===== src/Memory/Heap/Edit.antt =====
-- Writes to the headers of a segment, and what `malloc` and `free` do to the list of cells by them.
use print_os.Base.{
  ℕ, ◌+◌, ◌-◌, ◌≤◌, ◌<◌, ◌≡◌, refl, sym, ap, subst, ◌≢◌, Bool, true, false, List, [], ◌∷◌, ◌++◌,
  leb, if◌then◌else◌, arith,
}
use print_os.Memory.Heap.{Headers, BlockHeader, put, set_prev, split}
use print_os.Memory.Heap.Chain.{
  Cell, header, end_of, Seg, outside, is_apart, Seg-agree, is_apart_middle, append-Seg,
  is_apart-right,
}

pub Seg-put :
    (hs : Headers) (lo hi x : ℕ) (b : BlockHeader) (p a : ℕ) (xs : List Cell) (q n : ℕ)
    → lo ≤ x
    → x < hi
    → outside lo hi xs ≡ true
    → Seg hs p a xs q n
    → Seg (put hs x b) p a xs q n
unfolding put
Seg-put hs lo hi x b p a xs q n l h o s =
    Seg-agree hs (put hs x b) lo hi p a xs q n (omega arith) o (λ y d. ground arith) s

-- The cells behind `n` get another cell before them.
pub set_prev-Seg :
    (hs : Headers) (m n : ℕ) (ys : List Cell) (q v : ℕ)
    → is_apart ys ≡ true
    → Seg hs m n ys q 0
    → (q' : ℕ) × Seg (set_prev hs n v) v n ys q' 0
unfolding Seg set_prev put is_apart
set_prev-Seg hs m n [] q v a (e, f) = (v, (e, refl))
set_prev-Seg hs m n (d ∷ ds) q v a (k, e, z, h, s) =
    let o : outside d.addr (end_of d) ds ≡ true = ground arith in
    let b = record (hs n) { prev = v } in
    let eq : set_prev hs n v ≡ put hs n b = ground arith in
    let t : Seg (put hs n b) n k ds q 0 =
      Seg-put hs d.addr (end_of d) n b n k ds q 0 (omega arith) (omega arith) o s in
    let here : put hs n b n ≡ header v k d = ground arith in
    (q, subst (λ (f : Headers). Seg f v n (d ∷ ds) q 0) (sym eq) (k, e, z, here, t))

-- The cells before them stay.
pub set_prev-before :
    (hs : Headers) (m n : ℕ) (ys : List Cell) (q v p a : ℕ) (xs : List Cell) (r b : ℕ)
    → is_apart (xs ++ ys) ≡ true
    → Seg hs m n ys q 0
    → Seg hs p a xs r b
    → Seg (set_prev hs n v) p a xs r b
unfolding Seg set_prev put
set_prev-before hs m n [] q v p a xs r b ap (e, f) s =
    let eq : set_prev hs n v ≡ hs = ground arith in
    subst (λ (f : Headers). Seg f p a xs r b) (sym eq) s
set_prev-before hs m n (d ∷ ds) q v p a xs r b ap (k, e, z, h, t) s =
    let w = record (hs n) { prev = v } in
    let eq : set_prev hs n v ≡ put hs n w = ground arith in
    let o : outside d.addr (end_of d) xs ≡ true = ground (arith, is_apart_middle xs d ds) in
    subst (λ (f : Headers). Seg f p a xs r b) (sym eq)
      (Seg-put hs d.addr (end_of d) n w p a xs r b (omega arith) (omega arith) o s)

-- The header of a cell apart from them stays.
pub set_prev-other :
    (hs : Headers) (m n : ℕ) (ys : List Cell) (q v : ℕ) (c : Cell)
    → outside c.addr (end_of c) ys ≡ true
    → Seg hs m n ys q 0
    → set_prev hs n v c.addr ≡ hs c.addr
unfolding Seg set_prev put outside
set_prev-other hs m n [] q v c o (e, f) = ground arith
set_prev-other hs m n (d ∷ ds) q v c o (k, e, z, h, t) = ground arith

-- The first part of a cell that `malloc` cuts, and the second.
abbrev pub taken : (bytes : ℕ) → Cell → Cell
taken bytes c = record { addr = c.addr; is_free = false; bytes = bytes }

abbrev pub rest : (bytes : ℕ) → Cell → Cell
rest bytes c = record { addr = c.addr + 32 + bytes; is_free = true; bytes = c.bytes - bytes - 32 }

-- What `malloc` makes of a free cell of `bytes` or more, with `ys` behind it.
unfoldable pub carve : (bytes : ℕ) → Cell → List Cell → List Cell
carve bytes c ys =
    if leb (c.bytes - bytes) 32
    then record c { is_free = false } ∷ ys
    else taken bytes c ∷ rest bytes c ∷ ys

module _ (hs : Headers) (start : ℕ) (xs : List Cell) (c : Cell) (ys : List Cell) (q : ℕ)
    (apart : is_apart (xs ++ c ∷ ys) ≡ true) (m n k : ℕ) (before : Seg hs 0 start xs m n)
    (here : n ≡ c.addr) (nonzero : n ≢ 0) (head : hs n ≡ header m k c)
    (behind : Seg hs n k ys q 0) where
  before_free : outside c.addr (end_of c) xs ≡ true
  before_free = ground (arith, is_apart_middle xs c ys)

  behind_free : outside c.addr (end_of c) ys ≡ true
  behind_free = ground (arith, is_apart_middle xs c ys)

  apart_rest : is_apart (xs ++ ys) ≡ true
  apart_rest = ground (arith, is_apart_middle xs c ys)

  unfoldable pub cut : (bytes : ℕ) → Headers
  cut bytes =
      put (put (set_prev hs k (n + 32 + bytes)) (n + 32 + bytes) (header n k (rest bytes c))) n
        (header m (n + 32 + bytes) (taken bytes c))

  pub split-cut : (bytes : ℕ) → split n bytes hs ≡ cut bytes
  unfolding split cut
  split-cut bytes =
      ap
        (λ (o : BlockHeader).
          put
            (put (set_prev hs o.next (n + 32 + bytes)) (n + 32 + bytes)
              (record { prev = n; next = o.next; is_free = true; bytes = o.bytes - bytes - 32 }))
            n (record o { next = n + 32 + bytes; is_free = false; bytes = bytes }))
        head

  pub cut-Seg :
      (bytes : ℕ)
      → 32 < c.bytes - bytes
      → (q' : ℕ) × Seg (cut bytes) 0 start (xs ++ taken bytes c ∷ rest bytes c ∷ ys) q' 0
  unfolding cut Seg put
  cut-Seg bytes b =
      let nb = n + 32 + bytes in
      let h1 = set_prev hs k nb in
      let h2 = put h1 nb (header n k (rest bytes c)) in
      let at_n : cut bytes n ≡ header m nb (taken bytes c) = ground arith in
      let at_nb : cut bytes nb ≡ header n k (rest bytes c) = ground arith in
      let e_nb : nb ≡ (rest bytes c).addr = omega arith in
      let z_nb : nb ≢ 0 = ground arith in
      let (q', t1) = set_prev-Seg hs n k ys q nb (is_apart-right xs ys apart_rest) behind in
      let t2 =
        Seg-put h1 c.addr (end_of c) nb (header n k (rest bytes c)) nb k ys q' 0 (omega arith)
          (omega arith) behind_free t1 in
      let t3 =
        Seg-put h2 c.addr (end_of c) n (header m nb (taken bytes c)) nb k ys q' 0 (omega arith)
          (omega arith) behind_free t2 in
      let s1 = set_prev-before hs n k ys q nb 0 start xs m n apart_rest behind before in
      let s2 =
        Seg-put h1 c.addr (end_of c) nb (header n k (rest bytes c)) 0 start xs m n (omega arith)
          (omega arith) before_free s1 in
      let s3 =
        Seg-put h2 c.addr (end_of c) n (header m nb (taken bytes c)) 0 start xs m n (omega arith)
          (omega arith) before_free s2 in
      (
        q',
        append-Seg (cut bytes) 0 start xs (taken bytes c ∷ rest bytes c ∷ ys) m n q' 0 s3
            (nb, here, nonzero, at_n, (k, e_nb, z_nb, at_nb, t3)),
      )

  pub keep-Seg :
      (f : Bool)
      → Seg
          (put hs n (record (hs n) { is_free = f }))
          0
          start
          (xs ++ record c { is_free = f } ∷ ys)
          q
          0
  unfolding Seg put
  keep-Seg f =
      let b : BlockHeader = record (hs n) { is_free = f } in
      let at_n : put hs n b n ≡ header m k (record c { is_free = f }) = ground arith in
      let t =
        Seg-put hs c.addr (end_of c) n b n k ys q 0 (omega arith) (omega arith) behind_free
          behind in
      let s =
        Seg-put hs c.addr (end_of c) n b 0 start xs m n (omega arith) (omega arith) before_free
          before in
      append-Seg (put hs n b) 0 start xs (record c { is_free = f } ∷ ys) m n q 0 s
        (k, here, nonzero, at_n, t)
