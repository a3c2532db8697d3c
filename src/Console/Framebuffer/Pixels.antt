-- ===== src/Console/Framebuffer/Pixels.antt =====
-- What the pixel writes of kernel/src/framebuffer/framebuffer.cpp leave in memory.
use print_os.Base.{
  ℕ, zero, suc, ◌+◌, ◌-◌, ◌/◌, ◌%◌, ◌≤◌, ◌<◌, ◌≡◌, refl, sym, ap, subst, ◌&&◌, ◌⊎◌, inl, inr, ltb,
  leb, if◌then◌else◌, arith,
}
use print_os.Mem.{Mem, write8}
use print_os.Console.Framebuffer.{
  Framebuffer, get_pixel_addr, write_le, set_pixel, set_column, set_columns, set_all_pixels, black,
}

-- Byte `i` of a number, the lowest first.
unfoldable pub byte : ℕ → ℕ → ℕ
byte v zero = v % 256
byte v (suc i) = byte (v / 256) i

≤-cases : (a b : ℕ) → (a ≤ b) ⊎ (b < a)
≤-cases a b = ground arith

write_le_lem :
    (m : Mem) (p v k q : ℕ)
    → write_le m p v k q ≡ (if leb p q && ltb q (p + k) then byte v (q - p) else m q)
unfolding write_le byte
write_le_lem m p v zero q = ground arith
write_le_lem m p v (suc k) q = elim (≤-cases (p + 1) q) [
  | inl l ↦
      let e : q - p ≡ suc (q - (p + 1)) = omega arith in
      let b : byte v (q - p) ≡ byte (v / 256) (q - (p + 1)) = ap (byte v) e in
      ground (arith, write_le_lem (write8 m p v) (p + 1) (v / 256) k q, b)
  | inr g ↦
      let e : q - p ≡ 0 = omega arith in
      let b : byte v (q - p) ≡ v % 256 = ap (byte v) e in
      ground (arith, write_le_lem (write8 m p v) (p + 1) (v / 256) k q, b)
]

-- `set_pixel` writes the eight bytes of the color at the address of the pixel, the lowest first,
-- and no other byte.
pub set_pixel_lem :
    (fb : Framebuffer) (x y color : ℕ) (m : Mem) (q : ℕ)
    → set_pixel fb x y color m q ≡ (
        if leb (get_pixel_addr fb x y) q && ltb q (get_pixel_addr fb x y + 8)
        then byte color (q - get_pixel_addr fb x y)
        else m q)
unfolding set_pixel
set_pixel_lem fb x y color m q = write_le_lem m (get_pixel_addr fb x y) color 8 q

byte-zero : (i : ℕ) → byte 0 i ≡ 0
unfolding byte
byte-zero zero = refl
byte-zero (suc i) = byte-zero i

-- Black pixels keep a zero byte zero.
pub set_pixel-zero :
    (fb : Framebuffer) (x y : ℕ) (m : Mem) (q : ℕ) → m q ≡ 0 → set_pixel fb x y black m q ≡ 0
set_pixel-zero fb x y m q z =
    ground (arith, set_pixel_lem fb x y black m q, byte-zero (q - get_pixel_addr fb x y))

set_column-zero :
    (fb : Framebuffer) (x k y : ℕ) (m : Mem) (q : ℕ) → m q ≡ 0 → set_column fb x black k y m q ≡ 0
unfolding set_column
set_column-zero fb x zero y m q z = z
set_column-zero fb x (suc k) y m q z =
    set_column-zero fb x k (y + 1) (set_pixel fb x y black m) q (set_pixel-zero fb x y m q z)

set_columns-zero :
    (fb : Framebuffer) (k x : ℕ) (m : Mem) (q : ℕ) → m q ≡ 0 → set_columns fb black k x m q ≡ 0
unfolding set_columns
set_columns-zero fb zero x m q z = z
set_columns-zero fb (suc k) x m q z =
    set_columns-zero fb k (x + 1) (set_column fb x black fb.height 0 m) q
      (set_column-zero fb x fb.height 0 m q z)

set_column-black :
    (fb : Framebuffer) (x k y j i : ℕ) (m : Mem)
    → j < k
    → i < 8
    → set_column fb x black k y m (get_pixel_addr fb x (y + j) + i) ≡ 0
unfolding set_column
set_column-black fb x zero y j i m l b = ground arith
set_column-black fb x (suc k) y zero i m l b =
    let t : set_pixel fb x y black m (get_pixel_addr fb x (y + 0) + i) ≡ 0 =
      let e : y ≡ y + 0 = omega arith in
      let a = get_pixel_addr fb x (y + 0) in
      let p : set_pixel fb x (y + 0) black m (a + i) ≡ 0 =
        ground (arith, set_pixel_lem fb x (y + 0) black m (a + i), byte-zero (a + i - a)) in
      subst (λ z. set_pixel fb x z black m (a + i) ≡ 0) (sym e) p in
    set_column-zero fb x k (y + 1) (set_pixel fb x y black m) _ t
set_column-black fb x (suc k) y (suc j) i m l b =
    let e : y + 1 + j ≡ y + suc j = omega arith in
    subst
      (λ z.
        set_column fb x black k (y + 1) (set_pixel fb x y black m) (get_pixel_addr fb x z + i) ≡ 0)
      e (set_column-black fb x k (y + 1) j i (set_pixel fb x y black m) (omega arith) b)

set_columns-black :
    (fb : Framebuffer) (k x w j i : ℕ) (m : Mem)
    → w < k
    → j < fb.height
    → i < 8
    → set_columns fb black k x m (get_pixel_addr fb (x + w) j + i) ≡ 0
unfolding set_columns
set_columns-black fb zero x w j i m l b c = ground arith
set_columns-black fb (suc k) x zero j i m l b c =
    let e1 : x + 0 ≡ x = omega arith in
    let e2 : 0 + j ≡ j = omega arith in
    let t = set_column-black fb x fb.height 0 j i m b c in
    let t' =
      subst (λ z. set_column fb x black fb.height 0 m (get_pixel_addr fb x z + i) ≡ 0) e2 t in
    subst
      (λ z.
        set_columns fb black k (x + 1) (set_column fb x black fb.height 0 m)
          (get_pixel_addr fb z j + i)
        ≡ 0)
      (sym e1) (set_columns-zero fb k (x + 1) (set_column fb x black fb.height 0 m) _ t')
set_columns-black fb (suc k) x (suc w) j i m l b c =
    let e : x + 1 + w ≡ x + suc w = omega arith in
    subst
      (λ z.
        set_columns fb black k (x + 1) (set_column fb x black fb.height 0 m)
          (get_pixel_addr fb z j + i)
        ≡ 0)
      e
      (set_columns-black fb k (x + 1) w j i (set_column fb x black fb.height 0 m) (omega arith) b c)

-- Filling the screen with black leaves the eight bytes from every pixel of the screen on zero,
-- although the writes of neighbouring pixels overlap.
pub set_all_pixels-black :
    (fb : Framebuffer) (x y i : ℕ) (m : Mem)
    → x < fb.width
    → y < fb.height
    → i < 8
    → set_all_pixels fb black m (get_pixel_addr fb x y + i) ≡ 0
unfolding set_all_pixels
set_all_pixels-black fb x y i m l b c =
    let e : 0 + x ≡ x = omega arith in
    subst (λ z. set_columns fb black fb.width 0 m (get_pixel_addr fb z y + i) ≡ 0) e
      (set_columns-black fb fb.width 0 x y i m l b c)
