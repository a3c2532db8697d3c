-- ===== src/Console/Terminal/Scroll.antt =====
-- The `memcpy` of `Console::_scroll_down` (kernel/src/console/console.cpp).
use print_os.Base.{
  ℕ, ◌+◌, ◌-◌, ◌*◌, ◌%◌, ◌^◌, ◌≤◌, ◌<◌, ◌≡◌, ap, ◌∙◌, inl, inr, ◌&&◌, ltb, leb, if◌then◌else◌,
  arith, u64_mod, Bool-cases,
}
use print_os.Libc.MemOps.{memcpy}
use print_os.Libc.MemOps.Laws.{IsBytes, memcpy_lem}
use print_os.Console.Framebuffer.{get_pixel_addr}
use print_os.Console.Terminal.{Console, move_up}

-- The bytes of a row of text.
abbrev pub line_sz : Console → ℕ
line_sz c = c.font.glyph_height * c.framebuffer.px_per_scan * c.framebuffer.b_per_px

start_addr :
    (d l k : ℕ) → l < 2 ^ 32 → d + l < u64_mod → (d + l % 2 ^ 32 + 0 * k % 2 ^ 32) % u64_mod ≡ d + l
start_addr d l k a b = omega arith

copied :
    (s d l : ℕ)
    → l ≤ s
    → d + s < u64_mod
    → (s + u64_mod - (d + l + u64_mod - d) % u64_mod) % u64_mod ≡ s - l
copied s d l a b = omega arith

-- The byte that is copied to `q`.
below :
    (m : ℕ → ℕ) (d l q e : ℕ)
    → (if leb d q && ltb q e then m (d + l + (q - d)) else m q)
      ≡ (if leb d q && ltb q e then m (q + l) else m q)
below m d l q e = elim (Bool-cases (leb d q)) [
  | inl h ↦
      let a : d + l + (q - d) ≡ q + l = ground arith in
      ap (λ x. if leb d q && ltb q e then m x else m q) a
  | inr h ↦ ground arith
]

-- The copy in `_scroll_down` moves the image up by one row of text: every byte of the double buffer
-- but those of its last row of text is the one that was a row of text below it; the last row and
-- all other memory stay. Memory holds bytes, a row of text is not larger than the buffer and fits
-- 32 bits, and the buffer lies below 2 ^ 64.
pub move_up_lem :
    (c : Console) (q : ℕ)
    → IsBytes c.mem
    → line_sz c ≤ c.framebuffer.b_size
    → line_sz c < 2 ^ 32
    → c.framebuffer.double_fb_addr + c.framebuffer.b_size < u64_mod
    → move_up c q ≡ (
        if leb c.framebuffer.double_fb_addr q
          && ltb q (c.framebuffer.double_fb_addr + (c.framebuffer.b_size - line_sz c))
        then c.mem (q + line_sz c)
        else c.mem q)
unfolding move_up get_pixel_addr
move_up_lem c q b l w f =
    let fb = c.framebuffer in
    let d = fb.double_fb_addr in
    let l' = line_sz c in
    let start = start_addr d l' fb.b_per_px w (omega arith) in
    ap (λ x. memcpy c.mem d x ((fb.b_size + u64_mod - (x + u64_mod - d) % u64_mod) % u64_mod) q)
      start
    ∙ ap (λ n. memcpy c.mem d (d + l') n q) (copied fb.b_size d l' l f)
    ∙ memcpy_lem c.mem d (d + l') (fb.b_size - l') q b (inl (omega arith))
    ∙ below c.mem d l' q (d + (fb.b_size - l'))
