-- ===== src/Kutils/Printf/Step.antt =====
-- One round of the loop of `__printf` of kernel/src/kutils/console.cpp, for each kind of character.
use print_os.Base.{
  ℕ, suc, ◌+◌, ◌%◌, ◌^◌, ◌<◌, ◌≡◌, ◌≢◌, refl, true, false, Bool, List, [], ◌∷◌, ◌++◌, length, arith,
  some,
}
use print_os.Mem.{Mem, read8, write8}
use print_os.Libc.MemOps.Laws.{write8-IsBytes}
use print_os.Kutils.Printf.{State, put_text, put_number, step, printf_loop}
use print_os.Kutils.Printf.Spec.{Holds-cong, Holds-append}
use print_os.Kutils.Printf.Convert.{Good}

module _ (fuel buf temp_buf : ℕ) (m0 : Mem) where
  abbrev pub start : (percent : Bool) (args : List ℕ) → Mem → (j : ℕ) → State
  start percent args m j = record { percent = percent; args = args; mem = m; j = j }

  pub loop_step :
      (k str c : ℕ) (s s1 : State) {s' : State}
      → read8 s.mem str ≡ c
      → step fuel buf temp_buf c s ≡ some s1
      → printf_loop fuel buf temp_buf k (str + 1) s1 ≡ some s'
      → printf_loop fuel buf temp_buf (suc k) str s ≡ some s'
  unfolding printf_loop
  loop_step k str c s s1 char one rest = rw (char, one) rest

  -- A plain character behind the text.
  pub step-plain :
      (c : ℕ) (args : List ℕ) (m : Mem) (j : ℕ)
      → c ≢ b'%'
      → step fuel buf temp_buf c (start false args m j)
        ≡ some (start false args (write8 m (buf + j) c) ((j + 1) % 2 ^ 16))
  unfolding step
  step-plain c args m j h = ground arith

  pub step-percent :
      (c : ℕ) (args : List ℕ) (m : Mem) (j : ℕ)
      → c ≡ b'%'
      → step fuel buf temp_buf c (start false args m j) ≡ some (start true args m j)
  unfolding step
  step-percent c args m j h = ground arith

  pub step-dropped :
      (c : ℕ) (args : List ℕ) (m : Mem) (j : ℕ)
      → c ≢ b's'
      → c ≢ b'd'
      → c ≢ b'p'
      → step fuel buf temp_buf c (start true args m j) ≡ some (start false args m j)
  unfolding step
  step-dropped c args m j hs hd hp = ground arith

  pub step-string :
      (c arg : ℕ) (args : List ℕ) (m : Mem) (j : ℕ)
      → c ≡ b's'
      → step fuel buf temp_buf c (start true (arg ∷ args) m j)
        ≡ put_text fuel buf temp_buf m arg j args
  unfolding step
  step-string c arg args m j e = rw e refl

  pub step-decimal :
      (c : ℕ) (args : List ℕ) (m : Mem) (j : ℕ)
      → c ≡ b'd'
      → step fuel buf temp_buf c (start true args m j) ≡ put_number fuel buf temp_buf 10 args m j
  unfolding step
  step-decimal c args m j e = rw e refl

  pub step-pointer :
      (c : ℕ) (args : List ℕ) (m : Mem) (j : ℕ)
      → c ≡ b'p'
      → step fuel buf temp_buf c (start true args m j) ≡ put_number fuel buf temp_buf 16 args m j
  unfolding step
  step-pointer c args m j e = rw e refl

  pub write8-Good :
      (c : ℕ) (out : List ℕ) (m : Mem)
      → Good buf temp_buf m0 out m
      → c < 256
      → length out < 4096
      → Good buf temp_buf m0 (out ++ (c ∷ [])) (write8 m (buf + length out) c)
  write8-Good c out m g byte room = record {
    bytes = write8-IsBytes m (buf + length out) c g.bytes;
    held =
        Holds-append _ buf out (c ∷ []) (Holds-cong m _ buf out (λ q a b. ground arith) g.held)
          (ground arith, tt);
    same = λ q a b. ground (arith, g.same q a b);
  }
