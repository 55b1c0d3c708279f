-- ===== src/Package/Report.antt =====
-- tools/validate_phase1.py: the lists PASSES, WARNINGS and FAILURES, and what a clean report tells. A
-- message is kept without the values that it is filled with.
use app_datasource_validator.Prelude.{
  ◌≡◌, refl, Bool, true, false, String, List, [], ◌∷◌, ◌++◌, if◌then◌else◌, All,
}
use app_datasource_validator.Exec.{
  Error, Result, ok, err, Exec, pure, raise, lift, modify, for_each, resume, ◌>>=◌,
}

pub record Report : Type 0 where
  pub passes : List String
  pub warnings : List String
  pub failures : List String

-- A check writes to the report, and may end in an exception that nothing catches.
abbrev pub Check : Type 0 → Type 0
Check A = Exec Report A

unfoldable pub passed : String → Check (Unit {0})
unfolding modify
passed message = modify (λ r. record r { passes = r.passes ++ message ∷ [] })

unfoldable pub warn : String → Check (Unit {0})
unfolding modify
warn message = modify (λ r. record r { warnings = r.warnings ++ message ∷ [] })

unfoldable pub fail : String → Check (Unit {0})
unfolding modify
fail message = modify (λ r. record r { failures = r.failures ++ message ∷ [] })

-- `if bad: fail(...) else: ok(...)`
unfoldable pub refuse_if : Bool → String → String → Check (Unit {0})
unfolding passed fail
refuse_if bad failure pass = if bad then fail failure else passed pass

-- Where a check returns and the report is clean behind it, the report was clean before it and the
-- answer is as `P` says.
abbrev pub Clean : {A : Type 0} → (A → Type 0) → Report → Result A × Report → Type 0
Clean P before (ok a, r) = r.failures ≡ [] → (before.failures ≡ []) × P a
Clean P before (err e, r) = Unit

pub record Vouches {A : Type 0} (P : A → Type 0) (m : Check A) : Type 0 where
  pub from : (r : Report) → Clean P r (m r)

module _ {A : Type 0} {P : A → Type 0} where
  pub Vouches-pure : (a : A) → P a → Vouches P (pure a)
  unfolding pure
  Vouches-pure a p = record { from = λ r h. (h, p) }

  pub Vouches-raise : (e : Error) → Vouches P (raise {A = A} e)
  unfolding raise
  Vouches-raise e = record { from = λ r. tt }

  pub Vouches-lift : (x : Result A) → ((a : A) → x ≡ ok a → P a) → Vouches P (lift x)
  unfolding lift
  Vouches-lift (ok a) p = record { from = λ r h. (h, p a refl) }
  Vouches-lift (err e) p = record { from = λ r. tt }

  pub Vouches-if :
      (b : Bool) (m n : Check A)
      → (b ≡ true → Vouches P m)
      → (b ≡ false → Vouches P n)
      → Vouches P (if b then m else n)
  Vouches-if true m n vm vn = vm refl
  Vouches-if false m n vm vn = vn refl

append-nonempty : (xs : List String) (x : String) → xs ++ x ∷ [] ≡ [] → ⊥
append-nonempty [] x e = cc
append-nonempty (y ∷ xs) x e = cc

module _ {P : Unit {0} → Type 0} where
  pub Vouches-fail : (message : String) → Vouches P (fail message)
  unfolding fail modify
  Vouches-fail message = record { from = λ r h. absurd (append-nonempty r.failures message h) }

  pub Vouches-passed : (message : String) → P tt → Vouches P (passed message)
  unfolding passed modify
  Vouches-passed message p = record { from = λ r h. (h, p) }

  pub Vouches-warn : (message : String) → P tt → Vouches P (warn message)
  unfolding warn modify
  Vouches-warn message p = record { from = λ r h. (h, p) }

  pub Vouches-refuse_if :
      (bad : Bool) (failure pass : String)
      → (bad ≡ false → P tt)
      → Vouches P (refuse_if bad failure pass)
  unfolding refuse_if
  Vouches-refuse_if true failure pass p = Vouches-fail failure
  Vouches-refuse_if false failure pass p = Vouches-passed pass (p refl)

-- Whatever the check finds, a failure that is in the report stays there.
abbrev pub Sticks : {A : Type 0} → Check A → Type 0
Sticks m = Vouches (λ _. Unit {0}) m

module _ {A : Type 0} {P Q : A → Type 0} where
  Clean-weaken :
      ((a : A) → P a → Q a)
      → (before : Report) (later : Result A × Report) → Clean P before later
      → Clean Q before later
  Clean-weaken f before (err e, now) c = tt
  Clean-weaken f before (ok a, now) c = λ h. let (clean, p) = c h in (clean, f a p)

  pub Vouches-weaken : (m : Check A) → ((a : A) → P a → Q a) → Vouches P m → Vouches Q m
  Vouches-weaken m f v = record { from = λ r. Clean-weaken f r (m r) (v.from r) }

pub Vouches-Sticks : {A : Type 0} {P : A → Type 0} (m : Check A) → Vouches P m → Sticks m
Vouches-Sticks m v = Vouches-weaken m (λ _ _. tt) v

Clean-later :
    {B : Type 0} {Fact : Type 0} (Q : B → Type 0) (before now : Report) (later : Result B × Report)
    → (now.failures ≡ [] → (before.failures ≡ []) × Fact)
    → Clean (λ _. Unit {0}) now later
    → (Fact → Clean Q now later)
    → Clean Q before later
Clean-later Q before now (err e, r) c still next = tt
Clean-later Q before now (ok b, r) c still next =
    λ h. let (clean, fact) = c (still h).0 in (clean, (next fact h).1)

module _ {A B : Type 0} {P : A → Type 0} {Q : B → Type 0} where
  Vouches-resume :
      (rest : A → Check B)
      → ((a : A) → Sticks (rest a))
      → ((a : A) → P a → Vouches Q (rest a))
      → (before : Report) (x : Result A) (now : Report) → Clean P before (x, now)
      → Clean Q before (resume x rest now)
  Vouches-resume rest st each before (err e) now c = tt
  Vouches-resume rest st each before (ok a) now c =
      Clean-later Q before now (rest a now) c ((st a).from now) (λ p. (each a p).from now)

  pub Vouches-bind :
      (m : Check A) (rest : A → Check B)
      → Vouches P m
      → ((a : A) → Sticks (rest a))
      → ((a : A) → P a → Vouches Q (rest a))
      → Vouches Q (m >>= rest)
  unfolding ◌>>=◌
  Vouches-bind m rest vm st each = record {
    from = λ r. Vouches-resume rest st each r (m r).0 (m r).1 (vm.from r);
  }

module _ {A B : Type 0} where
  pub Sticks-bind :
      (m : Check A) (rest : A → Check B)
      → Sticks m
      → ((a : A) → Sticks (rest a))
      → Sticks (m >>= rest)
  Sticks-bind m rest sm sr = Vouches-bind m rest sm sr (λ a _. sr a)

module _ {A : Type 0} where
  pub Sticks-pure : (a : A) → Sticks (pure {S = Report} a)
  Sticks-pure a = Vouches-pure a tt

  pub Sticks-lift : (x : Result A) → Sticks (lift {S = Report} x)
  Sticks-lift x = Vouches-lift x (λ a _. tt)

  pub Sticks-if : (b : Bool) (m n : Check A) → Sticks m → Sticks n → Sticks (if b then m else n)
  Sticks-if b m n sm sn = Vouches-if b m n (λ _. sm) (λ _. sn)

pub Sticks-passed : (message : String) → Sticks (passed message)
Sticks-passed message = Vouches-passed message tt

pub Sticks-warn : (message : String) → Sticks (warn message)
Sticks-warn message = Vouches-warn message tt

pub Sticks-fail : (message : String) → Sticks (fail message)
Sticks-fail message = Vouches-fail message

pub Sticks-refuse_if : (bad : Bool) (failure pass : String) → Sticks (refuse_if bad failure pass)
Sticks-refuse_if bad failure pass = Vouches-refuse_if bad failure pass (λ _. tt)

pub Sticks-for_each :
    {A : Type 0} (xs : List A) (body : A → Check (Unit {0}))
    → ((a : A) → Sticks (body a))
    → Sticks (for_each xs body)
unfolding for_each
Sticks-for_each [] body sb = Sticks-pure tt
Sticks-for_each (x ∷ xs) body sb =
    Sticks-bind (body x) (λ _. for_each xs body) (sb x) (λ _. Sticks-for_each xs body sb)

pub ruleset sticks_rules = (
  Sticks-bind, Sticks-pure, Sticks-lift, Sticks-if, Sticks-passed, Sticks-warn, Sticks-fail,
  Sticks-refuse_if, Sticks-for_each,
)

module _ {A B : Type 0} {P : A → Type 0} {Q : B → Type 0} where
  -- Two checks in a row, both of which vouch for something.
  pub Vouches-both :
      (m : Check A) (n : Check B)
      → Vouches P m
      → Vouches Q n
      → Vouches (λ b. ((a : A) × P a) × Q b) (m >>= λ _. n)
  Vouches-both m n vm vn =
      Vouches-bind m (λ _. n) vm (λ _. Vouches-Sticks n vn)
        (λ a p. Vouches-weaken n (λ b q. ((a, p), q)) vn)

-- `for x in xs: body(x)` vouches for every element.
pub Vouches-for_each :
    {A : Type 0} {Q : A → Type 0} (xs : List A) (body : A → Check (Unit {0}))
    → ((a : A) → Vouches (λ _. Q a) (body a))
    → Vouches (λ _. All Q xs) (for_each xs body)
unfolding for_each
Vouches-for_each [] body vb = Vouches-pure tt tt
Vouches-for_each {Q = Q} (x ∷ xs) body vb =
    Vouches-bind (body x) (λ _. for_each xs body) (vb x)
      (λ _. Vouches-Sticks _ (Vouches-for_each xs body vb))
      (λ _ q. Vouches-weaken _ (λ _ qs. (q, qs)) (Vouches-for_each xs body vb))
