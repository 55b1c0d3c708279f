-- ===== src/Exec/Keeps.antt =====
-- Predicates of the state that an action keeps, whether it returns or raises.
use app_datasource_validator.Prelude.{◌≡◌, refl, Bool, true, false, List, [], ◌∷◌, if◌then◌else◌}
use app_datasource_validator.Exec.{
  Error, Result, ok, err, Exec, pure, raise, lift, modify, for_each, resume, ◌>>=◌,
}

pub record Keeps {S A : Type 0} (P : S → Type 0) (m : Exec S A) : Type 0 where
  pub from : (s : S) → P s → P (m s).1

module _ {S A : Type 0} {P : S → Type 0} where
  Keeps-of_still : (m : Exec S A) → ((s : S) → (m s).1 ≡ s) → Keeps P m
  Keeps-of_still m still = record { from = λ s h. rw (still s) h }

  pub Keeps-lift : (r : Result A) → Keeps P (lift r)
  unfolding lift
  Keeps-lift r = Keeps-of_still (lift r) (λ _. refl)

  pub Keeps-pure : (a : A) → Keeps P (pure a)
  unfolding pure
  Keeps-pure a = Keeps-of_still (pure a) (λ _. refl)

  pub Keeps-raise : (e : Error) → Keeps P (raise {A = A} e)
  unfolding raise
  Keeps-raise e = Keeps-of_still (raise e) (λ _. refl)

  pub Keeps-branch :
      (b : Bool) (m n : Exec S A) → Keeps P m → Keeps P n → Keeps P (if b then m else n)
  Keeps-branch true m n km kn = km
  Keeps-branch false m n km kn = kn

module _ {S A B : Type 0} {P : S → Type 0} where
  Keeps-resume :
      (rest : A → Exec S B)
      → ((a : A) → Keeps P (rest a))
      → (r : Result A) (now : S) → P now
      → P (resume r rest now).1
  Keeps-resume rest each (err e) now h = h
  Keeps-resume rest each (ok a) now h = (each a).from now h

  pub Keeps-bind :
      (start : Exec S A) (rest : A → Exec S B)
      → Keeps P start
      → ((a : A) → Keeps P (rest a))
      → Keeps P (start >>= rest)
  unfolding ◌>>=◌
  Keeps-bind start rest kept each = record {
    from = λ s h. Keeps-resume rest each (start s).0 (start s).1 (kept.from s h);
  }

module _ {S A : Type 0} {P : S → Type 0} where
  pub Keeps-for_each :
      (xs : List A) (body : A → Exec S (Unit {0}))
      → ((a : A) → Keeps P (body a))
      → Keeps P (for_each xs body)
  unfolding for_each
  Keeps-for_each [] body kb = Keeps-pure tt
  Keeps-for_each (x ∷ xs) body kb =
      Keeps-bind (body x) (λ _. for_each xs body) (kb x) (λ _. Keeps-for_each xs body kb)

pub Keeps-modify :
    {S : Type 0} {P : S → Type 0} (f : S → S) → ((s : S) → P s → P (f s)) → Keeps P (modify f)
unfolding modify
Keeps-modify f h = record { from = h }

pub ruleset keeps_rules =
    (Keeps-pure, Keeps-raise, Keeps-lift, Keeps-branch, Keeps-bind, Keeps-for_each)

-- From `P` before to `Q` after, whether the action returns or raises.
pub record Leads {S A : Type 0} (P Q : S → Type 0) (m : Exec S A) : Type 0 where
  pub from : (s : S) → P s → Q (m s).1

module _ {S A B : Type 0} {P Q : S → Type 0} where
  -- The first action makes the change, and the rest keeps it.
  pub Leads-then-Keeps :
      (m : Exec S A) (f : A → Exec S B)
      → Leads P Q m
      → ((a : A) → Keeps Q (f a))
      → Leads P Q (m >>= f)
  unfolding ◌>>=◌
  Leads-then-Keeps m f lm kf = record {
    from = λ s h. let (r, s') = m s in resumed r s' (lm.from s h);
  }
    where
      resumed : (r : Result A) (s' : S) → Q s' → Q (resume r f s').1
      resumed (ok a) s' p = (kf a).from s' p
      resumed (err e) s' p = p

  -- The first action keeps `P`, and a raise may stop there.
  pub Keeps-then-Leads :
      (m : Exec S A) (f : A → Exec S B)
      → ((s : S) → P s → Q s)
      → Keeps P m
      → ((a : A) → Leads P Q (f a))
      → Leads P Q (m >>= f)
  unfolding ◌>>=◌
  Keeps-then-Leads m f weaker km lf = record {
    from = λ s h. let (r, s') = m s in resumed r s' (km.from s h);
  }
    where
      resumed : (r : Result A) (s' : S) → P s' → Q (resume r f s').1
      resumed (ok a) s' p = (lf a).from s' p
      resumed (err e) s' p = weaker s' p

module _ {S A : Type 0} {P Q : S → Type 0} where
  pub Keeps-Leads : (m : Exec S A) → ((s : S) → P s → Q s) → Keeps P m → Leads P Q m
  Keeps-Leads m weaker k = record { from = λ s h. weaker _ (k.from s h) }

  pub Leads-branch :
      (b : Bool) (m n : Exec S A) → Leads P Q m → Leads P Q n → Leads P Q (if b then m else n)
  Leads-branch true m n lm ln = lm
  Leads-branch false m n lm ln = ln
