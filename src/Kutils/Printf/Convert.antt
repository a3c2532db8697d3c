-- ===== src/Kutils/Printf/Convert.antt =====
-- What a conversion of `__printf` of kernel/src/kutils/console.cpp does to the buffer.
use print_os.Base.{
  ℕ, ◌+◌, ◌-◌, ◌%◌, ◌^◌, ◌≤◌, ◌<◌, ◌≡◌, refl, ◌∙◌, ◌⊎◌, inl, false, List, ◌∷◌, ◌++◌, length,
  length-append, arith, some,
}
use print_os.Mem.{Mem}
use print_os.Libc.MemOps.{memcpy}
use print_os.Libc.MemOps.Laws.{IsBytes, memcpy_lem}
use print_os.Libc.Strings.Compare.{IsString, str_len_lem}
use print_os.Libc.Itoa.RoundTrip.{itoa-Spelled}
use print_os.Kutils.Printf.{put_text, put_number}
use print_os.Kutils.Printf.Spec.{
  text, IsNumeral, AllDigits-text, Apart, Holds, length-text, Holds-cong, Holds-append, Holds-text,
  number-text,
}

-- The memory while the loop runs: the text so far is in the buffer, and all but the two buffers is
-- as it was.
pub record Good (buf temp_buf : ℕ) (m0 : Mem) (out : List ℕ) (m : Mem) : Type 0 where
  pub bytes : IsBytes m
  pub held : Holds m buf out
  pub same : (q : ℕ) → Apart q 1 buf 4096 → Apart q 1 temp_buf 64 → m q ≡ m0 q

module _ (fuel buf temp_buf : ℕ) (m0 : Mem) where
  pub put_text-Good :
      (out args : List ℕ) (m : Mem) (src k : ℕ)
      → Good buf temp_buf m0 out m
      → IsString m src k
      → k < fuel
      → length out + k < 4096
      → Apart src k buf 4096
      → (m' : Mem) × (put_text fuel buf temp_buf m src (length out) args
          ≡ some
              (record { percent = false; args = args; mem = m'; j = length (out ++ text m src k) }))
        × Good buf temp_buf m0 (out ++ text m src k) m'
  unfolding put_text
  put_text-Good out args m src k g str enough room apart =
      (m', rw (str_len_lem fuel m src k str enough, j_eq) refl, good)
    where
      d : ℕ
      d = buf + length out

      m' : Mem
      m' = memcpy m d src k

      disjoint : (d ≤ src) ⊎ (src + k ≤ d)
      disjoint = ground arith

      copied : (i : ℕ) → i < k → m' (d + i) ≡ m (src + i)
      copied i h =
          let e : d + i - d ≡ i = omega arith in
          ground (arith, memcpy_lem m d src k (d + i) g.bytes disjoint, e)

      kept : (q : ℕ) → (q < d) ⊎ (d + k ≤ q) → m' q ≡ m q
      kept q h = ground (arith, memcpy_lem m d src k q g.bytes disjoint)

      j_eq : (length out + k) % 2 ^ 16 ≡ length (out ++ text m src k)
      j_eq = omega (arith, length-append out (text m src k), length-text m src k)

      good : Good buf temp_buf m0 (out ++ text m src k) m'
      good = record {
        bytes = λ q.
            ground
              (arith, memcpy_lem m d src k q g.bytes disjoint, g.bytes (src + (q - d)), g.bytes q);
        held =
            Holds-append m' buf out (text m src k)
              (Holds-cong m m' buf out (λ q a b. kept q (inl b)) g.held)
              (Holds-text m m' d src k copied);
        same = λ q a b. kept q (ground arith) ∙ g.same q a b;
      }

  -- A number in a base in which a word has at most twenty digits.
  pub put_number-Good :
      (base arg : ℕ) (out args : List ℕ) (m : Mem)
      → Good buf temp_buf m0 out m
      → Apart buf 4096 temp_buf 64
      → 2 ≤ base
      → base ≤ 36
      → 2 ^ 64 ≤ base ^ 20
      → 20 < fuel
      → length out + 20 < 4096
      → (digits : List ℕ) × (m' : Mem) × (put_number fuel buf temp_buf base
            (arg ∷ args)
            m
            (length out)
          ≡ some (record { percent = false; args = args; mem = m'; j = length (out ++ digits) }))
        × IsNumeral base (arg % 2 ^ 64) digits
        × (length digits ≤ 20)
        × Good buf temp_buf m0 (out ++ digits) m'
  unfolding put_number
  put_number-Good base arg out args m g apart lo hi wide enough room =
      let small : arg % 2 ^ 64 < 2 ^ 64 = omega arith in
      let (k, m1, run, spelled, short) =
        itoa-Spelled 64 m (arg % 2 ^ 64) temp_buf base g.bytes lo hi small in
      let bound : k ≤ 20 = short 20 (omega arith) (omega arith) in
      let g1 : Good buf temp_buf m0 out m1 = record {
        bytes = spelled.bytes;
        held = Holds-cong m m1 buf out (λ q a b. spelled.elsewhere q (ground arith)) g.held;
        same = λ q a b. spelled.elsewhere q (ground arith) ∙ g.same q a b;
      } in
      let (m', copied, g') =
        put_text-Good out args m1 temp_buf k g1 spelled.text (omega arith) (omega arith)
          (ground arith) in
      (
        text m1 temp_buf k,
        m',
        rw run copied,
        record {
          reads = number-text m1 temp_buf base k ∙ spelled.reads;
          all_digits = AllDigits-text m1 base temp_buf k spelled.digits;
          some_digit = omega (arith, length-text m1 temp_buf k, spelled.some_digit);
          shortest = λ d h lt. omega (arith, length-text m1 temp_buf k, short d h lt);
        },
        omega (arith, length-text m1 temp_buf k),
        g',
      )
