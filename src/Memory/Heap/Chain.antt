-- ===== src/Memory/Heap/Chain.antt =====
-- The heap's blocks as a list: what the links between the headers have to be, and what survives a
-- write to a header.
use print_os.Base.{
  ℕ, ◌+◌, ◌≤◌, ◌<◌, ◌≡◌, ap, refl, sym, subst, ◌∙◌, ◌≢◌, ◌⊎◌, Bool, true, ◌&&◌, ◌||◌, List, [], ◌∷◌,
  ◌++◌, leb, arith,
}
use print_os.Memory.Heap.{Heap, Headers, BlockHeader}

pub record Cell : Type 0 where
  pub addr : ℕ
  pub is_free : Bool
  pub bytes : ℕ

-- The header of a cell between two others.
abbrev pub header : (prev next : ℕ) → Cell → BlockHeader
header p n c = record { prev = p; next = n; is_free = c.is_free; bytes = c.bytes }

abbrev pub end_of : Cell → ℕ
end_of c = c.addr + 32 + c.bytes

-- From `first` on, behind `prev`, the headers are those of the cells, up to `last`; `next` follows.
unfoldable pub Seg : Headers → (prev first : ℕ) → List Cell → (last next : ℕ) → Type 0
Seg hs p a [] q b = (a ≡ b) × (p ≡ q)
Seg hs p a (c ∷ cs) q b =
    (n : ℕ) × (a ≡ c.addr) × (a ≢ 0) × (hs a ≡ header p n c) × Seg hs a n cs q b

-- No cell reaches into the addresses from `lo` up to `hi`.
unfoldable pub outside : (lo hi : ℕ) → List Cell → Bool
outside lo hi [] = true
outside lo hi (d ∷ ds) = (leb (end_of d) lo || leb hi d.addr) && outside lo hi ds

unfoldable pub is_apart : List Cell → Bool
is_apart [] = true
is_apart (c ∷ cs) = outside c.addr (end_of c) cs && is_apart cs

-- The heap is the list of cells: linked both ways from the first block on, and disjoint.
pub record Represents (h : Heap) (cells : List Cell) : Type 0 where
  pub last : ℕ
  pub seg : Seg h.headers 0 h.blocks cells last 0
  pub apart : is_apart cells ≡ true

pub Seg-append :
    (hs : Headers) (p a : ℕ) (xs ys : List Cell) (q b : ℕ)
    → Seg hs p a (xs ++ ys) q b
    → (m n : ℕ) × Seg hs p a xs m n × Seg hs m n ys q b
unfolding Seg
Seg-append hs p a [] ys q b s = (p, a, (refl, refl), s)
Seg-append hs p a (x ∷ xs) ys q b (n, e, z, h, s) =
    let (m, n', s1, s2) = Seg-append hs a n xs ys q b s in (m, n', (n, e, z, h, s1), s2)

pub append-Seg :
    (hs : Headers) (p a : ℕ) (xs ys : List Cell) (m n q b : ℕ)
    → Seg hs p a xs m n
    → Seg hs m n ys q b
    → Seg hs p a (xs ++ ys) q b
unfolding Seg
append-Seg hs p a [] ys m n q b (e, f) s =
    subst (λ x. Seg hs p x ys q b) (sym e) (subst (λ x. Seg hs x n ys q b) (sym f) s)
append-Seg hs p a (x ∷ xs) ys m n q b (k, e, z, h, s) t =
    (k, e, z, h, append-Seg hs a k xs ys m n q b s t)

-- A write to an address that no cell of the segment reaches leaves it as it was.
pub Seg-agree :
    (hs hs' : Headers) (lo hi p a : ℕ) (xs : List Cell) (q b : ℕ)
    → lo < hi
    → outside lo hi xs ≡ true
    → ((x : ℕ) → (x < lo) ⊎ (hi ≤ x) → hs' x ≡ hs x)
    → Seg hs p a xs q b
    → Seg hs' p a xs q b
unfolding Seg outside
Seg-agree hs hs' lo hi p a [] q b l o f s = s
Seg-agree hs hs' lo hi p a (x ∷ xs) q b l o f (n, e, z, h, s) =
    let o' : outside lo hi xs ≡ true = ground arith in
    let c : (a < lo) ⊎ (hi ≤ a) = ground arith in
    (n, e, z, f a c ∙ h, Seg-agree hs hs' lo hi a n xs q b l o' f s)

pub outside-append :
    (lo hi : ℕ) (xs ys : List Cell)
    → outside lo hi (xs ++ ys) ≡ (outside lo hi xs && outside lo hi ys)
unfolding outside
outside-append lo hi [] ys = refl
outside-append lo hi (x ∷ xs) ys = ground (arith, outside-append lo hi xs ys)

pub outside-sub :
    (lo hi lo' hi' : ℕ) (xs : List Cell)
    → lo ≤ lo'
    → hi' ≤ hi
    → outside lo hi xs ≡ true
    → outside lo' hi' xs ≡ true
unfolding outside
outside-sub lo hi lo' hi' [] l h o = refl
outside-sub lo hi lo' hi' (x ∷ xs) l h o =
    let o' : outside lo hi xs ≡ true = ground arith in
    ground (arith, outside-sub lo hi lo' hi' xs l h o')

pub outside-join :
    (lo mid hi : ℕ) (xs : List Cell)
    → outside lo mid xs ≡ true
    → outside mid hi xs ≡ true
    → outside lo hi xs ≡ true
unfolding outside
outside-join lo mid hi [] o1 o2 = refl
outside-join lo mid hi (x ∷ xs) o1 o2 =
    let o1' : outside lo mid xs ≡ true = ground arith in
    let o2' : outside mid hi xs ≡ true = ground arith in
    ground (arith, outside-join lo mid hi xs o1' o2')

-- A cell in the middle is apart from the others.
pub is_apart_middle :
    (xs : List Cell) (c : Cell) (ys : List Cell)
    → is_apart (xs ++ c ∷ ys)
      ≡ (outside c.addr (end_of c) xs && outside c.addr (end_of c) ys && is_apart (xs ++ ys))
unfolding is_apart outside
is_apart_middle [] c ys = refl
is_apart_middle (x ∷ xs) c ys = ground (
  arith,
  is_apart_middle xs c ys,
  outside-append x.addr (end_of x) xs (c ∷ ys),
  outside-append x.addr (end_of x) xs ys,
)

pub is_apart-right : (xs ys : List Cell) → is_apart (xs ++ ys) ≡ true → is_apart ys ≡ true
unfolding is_apart
is_apart-right [] ys h = h
is_apart-right (x ∷ xs) ys h =
    let t : is_apart (xs ++ ys) ≡ true = ground arith in is_apart-right xs ys t

pub snoc : (xs : List Cell) (p : Cell) (ys : List Cell) → (xs ++ p ∷ []) ++ ys ≡ xs ++ p ∷ ys
snoc [] p ys = refl
snoc (x ∷ xs) p ys = ap (λ zs. x ∷ zs) (snoc xs p ys)
