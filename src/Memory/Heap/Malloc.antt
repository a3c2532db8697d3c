-- ===== src/Memory/Heap/Malloc.antt =====
-- `_find_free_block` and `malloc` of kernel/src/memory/heap.cpp on the list of cells.
use print_os.Base.{
  ℕ, zero, suc, ◌+◌, ◌-◌, ◌/◌, ◌≤◌, ◌<◌, ◌≡◌, refl, sym, ap, subst, ◌∙◌, ◌≢◌, inl, inr, Bool, true,
  false, not, ◌&&◌, List, [], ◌∷◌, ◌++◌, ◌==◌, leb, if◌then◌else◌, arith, Option, some, none,
  length, Bool-cases,
}
use print_os.Memory.Heap.{
  Heap, Headers, BlockHeader, put, split, find_loop, find_free_block, take_block, extend, malloc,
}
use print_os.Memory.PMem.{request_frames}
use print_os.Memory.PMem.RequestFrames.Faults.{request_frames_one}
use print_os.Memory.Heap.Chain.{
  Cell, end_of, Seg, outside, is_apart, Represents, outside-sub, is_apart_middle, Seg-append,
}
use print_os.Memory.Heap.Edit.{carve, taken, rest, split-cut, cut-Seg, keep-Seg}

abbrev pub fits : (bytes : ℕ) → Cell → Bool
fits bytes c = c.is_free && leb bytes c.bytes

unfoldable pub no_fit : (bytes : ℕ) → List Cell → Bool
no_fit bytes [] = true
no_fit bytes (c ∷ cs) = not (fits bytes c) && no_fit bytes cs

pub Seg-nonzero :
    (hs : Headers) (p a : ℕ) (xs : List Cell) (c : Cell) (ys : List Cell) (q b : ℕ)
    → Seg hs p a (xs ++ c ∷ ys) q b
    → a ≢ 0
unfolding Seg
Seg-nonzero hs p a [] c ys q b (n, e, z, h, r) = z
Seg-nonzero hs p a (x ∷ xs) c ys q b (n, e, z, h, r) = z

pub find_loop-fit :
    (hs : Headers) (p a bytes fuel : ℕ) (xs : List Cell) (c : Cell) (ys : List Cell) (q b : ℕ)
    → Seg hs p a (xs ++ c ∷ ys) q b
    → no_fit bytes xs ≡ true
    → fits bytes c ≡ true
    → length xs < fuel
    → find_loop hs bytes fuel a ≡ some c.addr
unfolding find_loop no_fit Seg
find_loop-fit hs p a bytes zero xs c ys q b s u f l = ground arith
find_loop-fit hs p a bytes (suc fuel) [] c ys q b (n, e, z, h, s) u f l = ground arith
find_loop-fit hs p a bytes (suc fuel) (x ∷ xs) c ys q b (n, e, z, h, s) u f l =
    let u' : no_fit bytes xs ≡ true = ground arith in
    let z' = Seg-nonzero hs a n xs c ys q b s in
    let rec = find_loop-fit hs a n bytes fuel xs c ys q b s u' f (omega arith) in ground arith

pub find_loop-no_fit :
    (hs : Headers) (p a bytes fuel : ℕ) (x : Cell) (xs : List Cell) (q : ℕ)
    → Seg hs p a (x ∷ xs) q 0
    → no_fit bytes (x ∷ xs) ≡ true
    → length xs < fuel
    → find_loop hs bytes fuel a ≡ some 0
unfolding find_loop no_fit Seg
find_loop-no_fit hs p a bytes zero x xs q s u l = ground arith
find_loop-no_fit hs p a bytes (suc fuel) x [] q (n, e, z, h, s) u l = ground arith
find_loop-no_fit hs p a bytes (suc fuel) x (y ∷ ys) q (n, e, z, h, s) u l =
    let u' : no_fit bytes (y ∷ ys) ≡ true = ground arith in
    let z' = Seg-nonzero hs a n [] y ys q 0 s in
    let rec = find_loop-no_fit hs a n bytes fuel y ys q s u' (omega arith) in ground arith

-- The parts of a cell are apart wherever the cell was.
carve-apart :
    (bytes : ℕ) (xs : List Cell) (c : Cell) (ys : List Cell)
    → is_apart (xs ++ c ∷ ys) ≡ true
    → 32 < c.bytes - bytes
    → is_apart (xs ++ taken bytes c ∷ rest bytes c ∷ ys) ≡ true
unfolding outside
carve-apart bytes xs c ys a l =
    let o1 : outside c.addr (end_of c) xs ≡ true = ground (arith, is_apart_middle xs c ys) in
    let o2 : outside c.addr (end_of c) ys ≡ true = ground (arith, is_apart_middle xs c ys) in
    let a' : is_apart (xs ++ ys) ≡ true = ground (arith, is_apart_middle xs c ys) in
    let mid = c.addr + 32 + bytes in
    ground (
      arith,
      is_apart_middle xs (taken bytes c) (rest bytes c ∷ ys),
      is_apart_middle xs (rest bytes c) ys,
      outside-sub c.addr (end_of c) c.addr mid xs (omega arith) (omega arith) o1,
      outside-sub c.addr (end_of c) c.addr mid ys (omega arith) (omega arith) o2,
      outside-sub c.addr (end_of c) mid (end_of (rest bytes c)) xs (omega arith) (omega arith) o1,
      outside-sub c.addr (end_of c) mid (end_of (rest bytes c)) ys (omega arith) (omega arith) o2,
    )

pub keep-apart :
    (f : Bool) (xs : List Cell) (c : Cell) (ys : List Cell)
    → is_apart (xs ++ c ∷ ys) ≡ true
    → is_apart (xs ++ record c { is_free = f } ∷ ys) ≡ true
keep-apart f xs c ys a =
    is_apart_middle xs (record c { is_free = f }) ys ∙ sym (is_apart_middle xs c ys) ∙ a

carve-keep :
    (bytes : ℕ) (c : Cell) (ys : List Cell)
    → leb (c.bytes - bytes) 32 ≡ true
    → carve bytes c ys ≡ record c { is_free = false } ∷ ys
unfolding carve
carve-keep bytes c ys e = ground arith

carve-cut :
    (bytes : ℕ) (c : Cell) (ys : List Cell)
    → leb (c.bytes - bytes) 32 ≡ false
    → carve bytes c ys ≡ taken bytes c ∷ rest bytes c ∷ ys
unfolding carve
carve-cut bytes c ys e = ground arith

-- The end of `malloc` turns the cell into its parts, and returns where the data of the first lie.
pub take_block-Represents :
    (bytes : ℕ) (h : Heap) (xs : List Cell) (c : Cell) (ys : List Cell)
    → Represents h (xs ++ c ∷ ys)
    → bytes ≤ c.bytes
    → (h' : Heap) × (take_block bytes c.addr h ≡ some (c.addr + 32, h'))
      × Represents h' (xs ++ carve bytes c ys)
      × (h'.space ≡ h.space)
unfolding take_block Seg
take_block-Represents bytes h xs c ys r l =
    let (m, n, before, (k, here, nz, head, behind)) =
      Seg-append h.headers 0 h.blocks xs (c ∷ ys) r.last 0 r.seg in
    let sz : (h.headers n).bytes ≡ c.bytes = ap (λ (b : BlockHeader). b.bytes) head in
    elim (Bool-cases (leb (c.bytes - bytes) 32)) [
      | inl e ↦
          let hs' = put h.headers n (record (h.headers n) { is_free = false }) in
          let h' : Heap = record h { headers = hs' } in
          let seg =
            keep-Seg h.headers h.blocks xs c ys r.last r.apart m n k before here nz head behind
              false in
          let rep : Represents h' (xs ++ record c { is_free = false } ∷ ys) = record {
            last = r.last;
            seg = seg;
            apart = keep-apart false xs c ys r.apart;
          } in
          let eq1 : take_block bytes n h ≡ some (n + 32, h') = ground arith in
          (
            h',
            subst (λ a. take_block bytes a h ≡ some (a + 32, h')) here eq1,
            subst (λ zs. Represents h' (xs ++ zs)) (sym (carve-keep bytes c ys e)) rep,
            refl,
          )
      | inr e ↦
          let h' : Heap = record h { headers = split n bytes h.headers } in
          let big : 32 < c.bytes - bytes = ground arith in
          let (q', seg) =
            cut-Seg h.headers h.blocks xs c ys r.last r.apart m n k before here nz head behind bytes
              big in
          let eq =
            split-cut h.headers h.blocks xs c ys r.last r.apart m n k before here nz head behind
              bytes in
          let rep : Represents h' (xs ++ taken bytes c ∷ rest bytes c ∷ ys) = record {
            last = q';
            seg =
                subst
                  (λ (f : Headers). Seg f 0 h.blocks (xs ++ taken bytes c ∷ rest bytes c ∷ ys) q' 0)
                  (sym eq) seg;
            apart = carve-apart bytes xs c ys r.apart big;
          } in
          let eq2 : take_block bytes n h ≡ some (n + 32, h') = ground arith in
          (
            h',
            subst (λ a. take_block bytes a h ≡ some (a + 32, h')) here eq2,
            subst (λ zs. Represents h' (xs ++ zs)) (sym (carve-cut bytes c ys e)) rep,
            refl,
          )
    ]

-- For a request of at least a byte, with the first cell that is free and large enough `c`, and fuel
-- for the cells before it, `malloc` succeeds. The result is where the data of `c` begin. The heap
-- is again linked both ways and disjoint, and its list is the old one with `c` in use: whole, where
-- at most 32 bytes would be left, and otherwise cut to the size asked for, with the rest behind it
-- as a free cell. The frames and the tables stay.
pub malloc-Represents :
    (root fuel bytes : ℕ) (h : Heap) (xs : List Cell) (c : Cell) (ys : List Cell)
    → Represents h (xs ++ c ∷ ys)
    → 0 < bytes
    → no_fit bytes xs ≡ true
    → fits bytes c ≡ true
    → length xs < fuel
    → (h' : Heap) × (malloc root fuel bytes h ≡ some (c.addr + 32, h'))
      × Represents h' (xs ++ carve bytes c ys)
      × (h'.space ≡ h.space)
unfolding malloc find_free_block Seg
malloc-Represents root fuel bytes h xs c ys r b u f l =
    let first = Seg-nonzero h.headers 0 h.blocks xs c ys r.last 0 r.seg in
    let (m, n, before, (k, here, nz, head, behind)) =
      Seg-append h.headers 0 h.blocks xs (c ∷ ys) r.last 0 r.seg in
    let found = find_loop-fit h.headers 0 h.blocks bytes fuel xs c ys r.last 0 r.seg u f l in
    let (h', e, rep, same) = take_block-Represents bytes h xs c ys r (ground arith) in
    let got : ◌≡◌ {A = Option ℕ} (if bytes == 0 then none else find_free_block fuel bytes h)
        (some c.addr) =
      ground (arith, found) in
    let not_null : (c.addr == 0) ≡ false = ground arith in (h', rw (got, not_null, e), rep, same)

-- Where no cell of the heap fits a request of less than a page, `malloc` stops the kernel by a
-- failed assertion, given fuel for the cells and `last_free_idx` within the frames.
pub malloc-no_fit :
    (root fuel bytes : ℕ) (h : Heap) (x : Cell) (xs : List Cell)
    → Represents h (x ∷ xs)
    → h.space.pmem.last_free_idx ≤ h.space.pmem.frames
    → bytes < 4096
    → no_fit bytes (x ∷ xs) ≡ true
    → length xs < fuel
    → malloc root fuel bytes h ≡ none
unfolding malloc find_free_block extend Seg
malloc-no_fit root fuel bytes h x xs r w b u l =
    let none_found = find_loop-no_fit h.headers 0 h.blocks bytes fuel x xs r.last r.seg u l in
    let got : ◌≡◌ {A = Option ℕ} (if bytes == 0 then none else find_free_block fuel bytes h)
        (if bytes == 0 then none else some 0) =
      ground (arith, none_found) in
    let one : bytes / 4096 + 1 ≡ 1 = omega arith in
    let refused : request_frames (bytes / 4096 + 1) h.space.pmem ≡ none =
      ap (λ n. request_frames n h.space.pmem) one ∙ request_frames_one h.space.pmem w in
    elim (Bool-cases (bytes == 0)) [ inl z ↦ rw (got, z) | inr z ↦ rw (got, z, refused) ]
