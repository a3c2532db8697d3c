-- ===== src/Tests/Printf.antt =====
-- The theorem on the formatter of kernel/src/kutils/console.cpp at a concrete input.
use print_os.Base.{
  ℕ, ◌+◌, ◌≤◌, ◌≡◌, refl, inl, false, List, [], ◌∷◌, length, some, arith, ◌==◌, if◌then◌else◌,
}
use print_os.Mem.{Mem}
use print_os.Libc.MemOps.Laws.{IsBytes}
use print_os.Libc.Strings.Compare.{IsString}
use print_os.Kutils.Printf.{format}
use print_os.Kutils.Printf.Spec.{Spells, Ready, Holds, Apart, text}
use print_os.Kutils.Printf.Run.{format-Spells}

-- The format "a%d" at 10.
abbrev m : Mem
m = λ q. if q == 10 then 97 else if q == 11 then 37 else if q == 12 then 100 else 0

m-IsBytes : IsBytes m
m-IsBytes q = ground arith

m-IsString : IsString m 10 3
m-IsString = record { body = λ j h. ground arith; ends = refl }

m-Ready : Ready m 30 1000 6000 false (text m 10 3) (1234 ∷ []) 21
m-Ready = Ready.plain 97 (37 ∷ 100 ∷ []) (1234 ∷ []) 20 21 (omega arith) (omega arith) (
    Ready.percent_sign 37 (100 ∷ []) (1234 ∷ []) 20 refl
      (Ready.decimal 100 [] 1234 [] 0 20 refl (omega arith) (Ready.ends false [] 0)))

format-Spells_example :
    (out : List ℕ) × (m' : Mem) × (format 30 1000 6000 10 (1234 ∷ []) m ≡ some m')
    × Spells m false (text m 10 3) (1234 ∷ []) out
    × (length out ≤ 21)
    × Holds m' 1000 out
    × (m' (1000 + length out) ≡ 0)
    × ((q : ℕ) → Apart q 1 1000 4096 → Apart q 1 6000 64 → m' q ≡ m q)
format-Spells_example =
    format-Spells 30 1000 6000 10 3 21 (1234 ∷ []) m m-IsBytes (inl (omega arith)) (omega arith)
      m-IsString (omega arith) (omega arith) (inl (omega arith)) (inl (omega arith)) (omega arith)
      m-Ready
