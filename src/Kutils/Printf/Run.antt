-- ===== src/Kutils/Printf/Run.antt =====
-- The loop of `__printf` of kernel/src/kutils/console.cpp, and the buffer that it fills, against the
-- text that the format and its arguments stand for.
use mathlib.Core.List.{append_assoc, append-nil}
use print_os.Base.{
  ℕ, ◌+◌, ◌%◌, ◌^◌, ◌≤◌, ◌<◌, ◌≡◌, refl, sym, ap, ◌∙◌, true, false, Bool, List, [], ◌∷◌, ◌++◌,
  length, length-append, arith, some, subst, ltb,
}
use print_os.Mem.{Mem, write8}
use print_os.Libc.MemOps.{memset}
use print_os.Libc.MemOps.Laws.{IsBytes, memset_lem}
use print_os.Libc.Strings.Compare.{IsString, str_len_lem}
use print_os.Libc.Strings.{str_len}
use print_os.Kutils.Printf.{State, step, printf_loop, format}
use print_os.Kutils.Printf.Spec.{
  text, Apart, Holds, Spells, Ready, length-text, Holds-cong, text-Holds, text-cong,
}
use print_os.Kutils.Printf.Convert.{Good, put_text-Good, put_number-Good}
use print_os.Kutils.Printf.Step.{
  start, loop_step, step-plain, step-percent, step-dropped, step-string, step-decimal, step-pointer,
  write8-Good,
}

module _ (fuel buf temp_buf : ℕ) (m0 : Mem) where
  -- The loop over a format ends, with the text that the format stands for behind what there was.
  record Done (percent : Bool) (fmt args : List ℕ) (room : ℕ) (out : List ℕ) (str : ℕ) (m : Mem)
      : Type 0 where
    more : List ℕ
    final : State
    run :
        printf_loop fuel buf temp_buf
          (length fmt)
          str
          (start fuel buf temp_buf m0 percent args m (length out))
        ≡ some final
    spells : Spells m0 percent fmt args more
    good : Good buf temp_buf m0 (out ++ more) final.mem
    at : final.j ≡ length (out ++ more)
    fits : length more ≤ room

  -- One round more in front.
  Done-step :
      (c : ℕ) (cs args args' : List ℕ) (p p' : Bool) (rest room : ℕ) (out part : List ℕ) (str : ℕ)
      (m m' : Mem)
      → m str ≡ c
      → step fuel buf temp_buf c (start fuel buf temp_buf m0 p args m (length out))
        ≡ some (start fuel buf temp_buf m0 p' args' m' (length (out ++ part)))
      → ((more : List ℕ) → Spells m0 p' cs args' more → Spells m0 p (c ∷ cs) args (part ++ more))
      → rest + length part ≤ room
      → Done p' cs args' rest (out ++ part) (str + 1) m'
      → Done p (c ∷ cs) args room out str m
  Done-step c cs args args' p p' rest room out part str m m' char one spell fit d = record {
    more = part ++ d.more;
    final = d.final;
    run = loop_step fuel buf temp_buf m0 (length cs) str c _ _ char one d.run;
    spells = spell d.more d.spells;
    good = subst (λ t. Good buf temp_buf m0 t d.final.mem) (append_assoc out part d.more) d.good;
    at = d.at ∙ ap (λ t. length t) (append_assoc out part d.more);
    fits = omega (arith, d.fits, length-append part d.more);
  }

  -- One round more that writes nothing.
  Done-skip :
      (c : ℕ) (cs args : List ℕ) (p p' : Bool) (room : ℕ) (out : List ℕ) (str : ℕ) (m : Mem)
      → m str ≡ c
      → step fuel buf temp_buf c (start fuel buf temp_buf m0 p args m (length out))
        ≡ some (start fuel buf temp_buf m0 p' args m (length out))
      → ((more : List ℕ) → Spells m0 p' cs args more → Spells m0 p (c ∷ cs) args more)
      → Done p' cs args room out (str + 1) m
      → Done p (c ∷ cs) args room out str m
  Done-skip c cs args p p' room out str m char one spell d = record {
    more = d.more;
    final = d.final;
    run = loop_step fuel buf temp_buf m0 (length cs) str c _ _ char one d.run;
    spells = spell d.more d.spells;
    good = d.good;
    at = d.at;
    fits = d.fits;
  }

  -- A string outside the buffers is still one while the loop runs.
  IsString-same :
      (out : List ℕ) (m : Mem) (arg k : ℕ)
      → Good buf temp_buf m0 out m
      → Apart arg (k + 1) buf 4096
      → Apart arg (k + 1) temp_buf 64
      → IsString m0 arg k
      → IsString m arg k × (text m arg k ≡ text m0 arg k)
  IsString-same out m arg k g a b t = (
    record {
      body = λ j h. rw (g.same (arg + j) (ground arith) (ground arith)) (t.body j h);
      ends = g.same (arg + k) (ground arith) (ground arith) ∙ t.ends;
    },
    text-cong m0 m arg k (λ q lo hi. g.same q (ground arith) (ground arith)),
  )

  module _ (apart : Apart buf 4096 temp_buf 64) (enough : 20 < fuel) where
    run-Done :
        {p : Bool} {fmt args : List ℕ} {room : ℕ}
        → Ready m0 fuel buf temp_buf p fmt args room
        → (out : List ℕ) (str : ℕ) (m : Mem) → Good buf temp_buf m0 out m
        → Holds m0 str fmt
        → Apart str (length fmt) buf 4096
        → Apart str (length fmt) temp_buf 64
        → length out + room < 4096
        → Done p fmt args room out str m
    unfolding printf_loop
    run-Done (Ready.ends p args room) out str m g h a b small = record {
      more = [];
      final = start fuel buf temp_buf m0 p args m (length out);
      run = refl;
      spells = Spells.ends p args;
      good = subst (λ t. Good buf temp_buf m0 t m) (sym (append-nil out)) g;
      at = ap (λ t. length t) (sym (append-nil out));
      fits = omega arith;
    }
    run-Done (Ready.plain c cs args rest room ne le ready) out str m g h a b small =
        let char : m str ≡ c = g.same str (ground arith) (ground arith) ∙ h.0 in
        let byte : c < 256 = omega (arith, g.bytes str) in
        let index : (length out + 1) % 2 ^ 16 ≡ length (out ++ (c ∷ [])) =
          omega (arith, length-append out (c ∷ [])) in
        Done-step c cs args args false false rest room out (c ∷ []) str m
          (write8 m (buf + length out) c) char
          (step-plain fuel buf temp_buf m0 c args m (length out) ne
            ∙ ap
                (λ t.
                  some (start fuel buf temp_buf m0 false args (write8 m (buf + length out) c) t))
                index)
          (λ more sp. Spells.plain c cs args more ne sp) le
          (run-Done ready (out ++ (c ∷ [])) (str + 1) (write8 m (buf + length out) c)
            (write8-Good fuel buf temp_buf m0 c out m g byte (omega arith)) h.1 (ground arith)
            (ground arith) (omega (arith, length-append out (c ∷ []))))
    run-Done (Ready.percent_sign c cs args room e ready) out str m g h a b small =
        let char : m str ≡ c = g.same str (ground arith) (ground arith) ∙ h.0 in
        Done-skip c cs args false true room out str m char
          (step-percent fuel buf temp_buf m0 c args m (length out) e)
          (λ more sp. Spells.percent_sign c cs args more e sp)
          (run-Done ready out (str + 1) m g h.1 (ground arith) (ground arith) small)
    run-Done (Ready.string c cs arg k args rest room e text_at short clear clear' le ready) out str
          m g h a b small =
        let char : m str ≡ c = g.same str (ground arith) (ground arith) ∙ h.0 in
        let (here, same_text) = IsString-same out m arg k g clear clear' text_at in
        let (m', one, g') =
          put_text-Good fuel buf temp_buf m0 out args m arg k g here short (omega arith)
            (ground arith) in
        Done-step c cs (arg ∷ args) args true false rest room out (text m arg k) str m m' char
          (step-string fuel buf temp_buf m0 c arg args m (length out) e ∙ one)
          (λ more sp.
            subst (λ t. Spells m0 true (c ∷ cs) (arg ∷ args) (t ++ more)) (sym same_text)
              (Spells.string c cs arg k args more e text_at sp))
          (omega (arith, length-text m arg k))
          (run-Done ready (out ++ text m arg k) (str + 1) m' g' h.1 (ground arith) (ground arith)
            (omega (arith, length-append out (text m arg k), length-text m arg k)))
    run-Done (Ready.decimal c cs arg args rest room e le ready) out str m g h a b small =
        let char : m str ≡ c = g.same str (ground arith) (ground arith) ∙ h.0 in
        let (digits, m', one, reads, short, g') =
          put_number-Good fuel buf temp_buf m0 10 arg out args m g apart (omega arith) (omega arith)
            (omega arith) enough (omega arith) in
        Done-step c cs (arg ∷ args) args true false rest room out digits str m m' char
          (step-decimal fuel buf temp_buf m0 c (arg ∷ args) m (length out) e ∙ one)
          (λ more sp. Spells.decimal c cs arg digits args more e reads sp) (omega arith)
          (run-Done ready (out ++ digits) (str + 1) m' g' h.1 (ground arith) (ground arith)
            (omega (arith, length-append out digits)))
    run-Done (Ready.pointer c cs arg args rest room e le ready) out str m g h a b small =
        let char : m str ≡ c = g.same str (ground arith) (ground arith) ∙ h.0 in
        let (digits, m', one, reads, short, g') =
          put_number-Good fuel buf temp_buf m0 16 arg out args m g apart (omega arith) (omega arith)
            (omega arith) enough (omega arith) in
        Done-step c cs (arg ∷ args) args true false rest room out digits str m m' char
          (step-pointer fuel buf temp_buf m0 c (arg ∷ args) m (length out) e ∙ one)
          (λ more sp. Spells.pointer c cs arg digits args more e reads sp) (omega arith)
          (run-Done ready (out ++ digits) (str + 1) m' g' h.1 (ground arith) (ground arith)
            (omega (arith, length-append out digits)))
    run-Done (Ready.dropped c cs args room ns nd np ready) out str m g h a b small =
        let char : m str ≡ c = g.same str (ground arith) (ground arith) ∙ h.0 in
        Done-skip c cs args true false room out str m char
          (step-dropped fuel buf temp_buf m0 c args m (length out) ns nd np)
          (λ more sp. Spells.dropped c cs args more ns nd np sp)
          (run-Done ready out (str + 1) m g h.1 (ground arith) (ground arith) small)

-- Both buffers are cleared first.
abbrev cleared : Mem → (buf temp_buf : ℕ) → Mem
cleared m buf temp_buf = memset (memset m buf 0 4096) temp_buf 0 64

cleared_lem :
    (m : Mem) (buf temp_buf : ℕ)
    → IsBytes m
    → IsBytes (cleared m buf temp_buf)
      × ((q : ℕ) → Apart q 1 buf 4096 → Apart q 1 temp_buf 64 → cleared m buf temp_buf q ≡ m q)
cleared_lem m buf temp_buf b = (
  λ q.
      ground
        (arith, memset_lem (memset m buf 0 4096) temp_buf 0 64 q, memset_lem m buf 0 4096 q, b q),
  λ q h k.
      ground (arith, memset_lem (memset m buf 0 4096) temp_buf 0 64 q, memset_lem m buf 0 4096 q),
)

-- With a format of fewer than 2 ^ 16 characters, an argument for each conversion, room for the text
-- in the buffer of 4096 bytes, and the format and the strings outside the two buffers, the formatter
-- returns. The buffer then holds a text that the format and its arguments stand for, with its
-- terminator, and nothing outside the two buffers has changed. In that text a number is written in
-- digits of the base 10 or 16, `0` to `9` and `a` to `f`, at least one, and without needless zeros
-- in front.
pub format-Spells :
    (fuel buf temp_buf str len room : ℕ) (args : List ℕ) (m : Mem)
    → IsBytes m
    → Apart buf 4096 temp_buf 64
    → 20 < fuel
    → IsString m str len
    → len < fuel
    → len < 2 ^ 16
    → Apart str (len + 1) buf 4096
    → Apart str (len + 1) temp_buf 64
    → room < 4096
    → Ready m fuel buf temp_buf false (text m str len) args room
    → (out : List ℕ) × (m' : Mem) × (format fuel buf temp_buf str args m ≡ some m')
      × Spells m false (text m str len) args out
      × (length out ≤ room)
      × Holds m' buf out
      × (m' (buf + length out) ≡ 0)
      × ((q : ℕ) → Apart q 1 buf 4096 → Apart q 1 temp_buf 64 → m' q ≡ m q)
unfolding format
format-Spells fuel buf temp_buf str len room args m b apart enough fmt short small clear clear' fits
      ready =
    (d.more, last, returned, d.spells, d.fits, held, ground arith, same)
  where
    m1 : Mem
    m1 = cleared m buf temp_buf

    g : Good buf temp_buf m [] m1
    g = record {
      bytes = (cleared_lem m buf temp_buf b).0;
      held = tt;
      same = (cleared_lem m buf temp_buf b).1;
    }

    size : length (text m str len) ≡ len
    size = length-text m str len

    d : Done fuel buf temp_buf m false (text m str len) args room [] str m1
    d =
        run-Done fuel buf temp_buf m apart enough ready [] str m1 g (text-Holds m str len)
          (ground (arith, size)) (ground (arith, size)) (omega arith)

    last : Mem
    last = write8 d.final.mem (buf + length d.more) 0

    measured : str_len fuel m1 str ≡ some len
    measured =
        str_len_lem fuel m1 str len
          (IsString-same fuel buf temp_buf m [] m1 str len g clear clear' fmt).0 short

    under : ltb len (2 ^ 16) ≡ true
    under = ground arith

    run :
        printf_loop fuel buf temp_buf len str (start fuel buf temp_buf m false args m1 0)
        ≡ some d.final
    run =
        subst
          (λ k.
            printf_loop fuel buf temp_buf k str (start fuel buf temp_buf m false args m1 0)
            ≡ some d.final)
          size d.run

    returned : format fuel buf temp_buf str args m ≡ some last
    returned = rw (measured, under, run) (ap (λ t. some (write8 d.final.mem (buf + t) 0)) d.at)

    held : Holds last buf d.more
    held = Holds-cong d.final.mem last buf d.more (λ q lo hi. ground arith) d.good.held

    same : (q : ℕ) → Apart q 1 buf 4096 → Apart q 1 temp_buf 64 → last q ≡ m q
    same q h k = ground (arith, d.good.same q h k, d.fits)
