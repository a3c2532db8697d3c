-- ===== src/Memory/Heap/MergePrev.antt =====
-- The merge with the previous block in `free` of kernel/src/memory/heap.cpp.
use print_os.Base.{
  ℕ, ◌+◌, ◌≡◌, sym, ap, ◌∙◌, ◌≢◌, true, false, not, ◌&&◌, ◌||◌, ◌==◌, if◌then◌else◌, arith, Option,
  some, none,
}
use print_os.Memory.Heap.{
  Headers, BlockHeader, put, set_prev, merge_next, merge_prev, are_blocks_contiguous,
  get_total_block_size,
}
use print_os.Memory.Heap.Chain.{Cell, header}
use print_os.Memory.Heap.Merge.{joins, merge_next-join}

-- `merge_prev` with the two headers that it reads as arguments.
prev_step : Headers → (a : ℕ) → BlockHeader → BlockHeader → Option Headers
prev_step hs a b p =
    if not (b.prev == 0)
      && p.is_free
      && (if b.prev == 0 || a == 0 then false else b.prev + (32 + p.bytes) == a)
    then (if b.next == 0
        then none
        else some (
            set_prev (put hs b.prev (record p { bytes = p.bytes + (32 + b.bytes); next = b.next }))
              b.next b.prev))
    else some hs

module _ (hs : Headers) (m a b k : ℕ) (p c : Cell) (at_p : a ≡ p.addr) (a_nonzero : a ≢ 0)
    (b_nonzero : b ≢ 0) (at_c : b ≡ c.addr) (head_p : hs a ≡ header m b p)
    (head_c : hs b ≡ header a k c) (c_free : c.is_free ≡ true) where
  merge_prev-step : merge_prev b hs ≡ prev_step hs b (header a k c) (header m b p)
  unfolding merge_prev prev_step are_blocks_contiguous get_total_block_size
  merge_prev-step =
      ap (λ x. prev_step hs b x (hs x.prev)) head_c
      ∙ ap (λ x. prev_step hs b (header a k c) x) head_p

  pub merge_prev-keep : joins p c ≡ false → merge_prev b hs ≡ some hs
  unfolding prev_step
  merge_prev-keep j = merge_prev-step ∙ ground arith

  pub merge_prev-fault : joins p c ≡ true → k ≡ 0 → merge_prev b hs ≡ none
  unfolding prev_step
  merge_prev-fault j z = merge_prev-step ∙ ground arith

  pub merge_prev-join : joins p c ≡ true → k ≢ 0 → merge_prev b hs ≡ some (merge_next a hs)
  unfolding prev_step
  merge_prev-join j nz =
      merge_prev-step
      ∙ ground arith
      ∙ ap some (sym (merge_next-join hs m a b k p c at_p a_nonzero b_nonzero at_c head_p head_c j))
