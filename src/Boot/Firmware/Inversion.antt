-- ===== src/Boot/Firmware/Inversion.antt =====
-- What the success of a chain of calls of the firmware says of its parts.
use print_os.Base.{ap, ℕ, ◌≡◌, refl, ◌⊎◌, inl, inr, arith, ◌==◌, Bool-cases}
use print_os.Boot.Firmware.{
  Outcome, ok, failed, Run, after, ◌>>=◌, efi_success, call, call_for, or_null, nulled, reported,
  or_status,
}

after-ok :
    {S E A B : Type 0} (o : Outcome E A) (s : S) (f : A → Run S E B) {b : B} {s' : S}
    → after o s f ≡ (ok b, s')
    → (a : A) × (o ≡ ok a) × (f a s ≡ (ok b, s'))
after-ok (ok a) s f h = (a, refl, h)
after-ok (failed e) s f h = cc

-- A chain that succeeds has two parts that do.
pub >>=-eq-ok :
    {S E A B : Type 0} (m : Run S E A) (f : A → Run S E B) (s : S) {b : B} {s' : S}
    → (m >>= f) s ≡ (ok b, s')
    → (a : A) × ((m s).0 ≡ ok a) × (f a (m s).1 ≡ (ok b, s'))
>>=-eq-ok m f s h = after-ok (m s).0 (m s).1 f h

-- A chain whose first part fails, fails with it.
pub >>=-failed :
    {S E A B : Type 0} (m : Run S E A) (f : A → Run S E B) (s : S) {e : E}
    → (m s).0 ≡ failed e
    → (m >>= f) s ≡ (failed e, (m s).1)
>>=-failed m f s h = rw (h, ◌>>=◌) refl

-- A chain whose first part succeeds is the second part.
pub >>=-ok :
    {S E A B : Type 0} (m : Run S E A) (f : A → Run S E B) (s : S) {a : A}
    → (m s).0 ≡ ok a
    → (m >>= f) s ≡ f a (m s).1
>>=-ok m f s h = rw (h, ◌>>=◌) refl

nulled-ok : {A : Type 0} (o : Outcome ℕ A) {a : A} → nulled o ≡ ok a → o ≡ ok a
nulled-ok (ok x) h = cc
nulled-ok (failed e) h = cc

module _ {S : Type 0} where
  pub call-eq-ok : (m : S → ℕ × S) (s : S) → (call m s).0 ≡ ok tt → (m s).0 ≡ efi_success
  call-eq-ok m s h = elim (Bool-cases ((m s).0 == efi_success)) [
    | inl e ↦ ground arith
    | inr e ↦ let bad : failed (m s).0 ≡ ok tt = rw e at h in cc bad
  ]

  pub call_for-eq-ok :
      {A : Type 0} (m : S → (ℕ × A) × S) (s : S) {a : A}
      → (call_for m s).0 ≡ ok a
      → ((m s).0.0 ≡ efi_success) × ((m s).0.1 ≡ a)
  call_for-eq-ok {A} m s {a} h = elim (Bool-cases ((m s).0.0 == efi_success)) [
    | inl e ↦
        let good : ◌≡◌ {A = Outcome ℕ A} (ok (m s).0.1) (ok a) = rw e at h in
        (ground arith, cc good)
    | inr e ↦ let bad : ◌≡◌ {A = Outcome ℕ A} (failed (m s).0.0) (ok a) = rw e at h in cc bad
  ]

  pub or_null-eq-ok :
      {A : Type 0} (m : Run S ℕ A) (s : S) {a : A} → (or_null m s).0 ≡ ok a → (m s).0 ≡ ok a
  or_null-eq-ok m s h = nulled-ok (m s).0 h

  -- The whole run, and not its result alone.
  pub or_null-run :
      {A : Type 0} (m : Run S ℕ A) (s : S) {a : A} {s' : S}
      → or_null m s ≡ (ok a, s')
      → m s ≡ (ok a, s')
  or_null-run m s h =
      let result = or_null-eq-ok m s (ap (λ r. r.0) h) in
      let state = ap (λ r. r.1) h in λ i. (result i, state i)

after-failed :
    {S E A B : Type 0} (o : Outcome E A) (s : S) (f : A → Run S E B) {e : E}
    → (after o s f).0 ≡ failed e
    → (o ≡ failed e) ⊎ ((a : A) × (o ≡ ok a) × ((f a s).0 ≡ failed e))
after-failed (ok a) s f h = inr (a, refl, h)
after-failed (failed e) s f h = inl (cc h)

-- A chain fails in its first part or in its second.
pub >>=-eq-failed :
    {S E A B : Type 0} (m : Run S E A) (f : A → Run S E B) (s : S) {e : E}
    → ((m >>= f) s).0 ≡ failed e
    → ((m s).0 ≡ failed e) ⊎ ((a : A) × ((m s).0 ≡ ok a) × ((f a (m s).1).0 ≡ failed e))
>>=-eq-failed m f s h = after-failed (m s).0 (m s).1 f h

reported-failed :
    {A : Type 0} (status : ℕ) (o : Outcome (Unit {0}) A) {e : ℕ}
    → reported status o ≡ failed e
    → (o ≡ failed tt) × (e ≡ status)
reported-failed status (ok a) h = cc h
reported-failed status (failed tt) h = (refl, cc h)

pub or_status-eq-failed :
    {S A : Type 0} (status : ℕ) (m : Run S (Unit {0}) A) (s : S) {e : ℕ}
    → (or_status status m s).0 ≡ failed e
    → ((m s).0 ≡ failed tt) × (e ≡ status)
or_status-eq-failed status m s h = reported-failed status (m s).0 h
