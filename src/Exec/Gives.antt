-- ===== src/Exec/Gives.antt =====
-- Actions that keep a predicate of the state and answer with what has a property.
use app_datasource_validator.Prelude.{List, [], ◌∷◌, All}
use app_datasource_validator.Exec.{Result, ok, err, Exec, pure, for_each, resume, ◌>>=◌}
use app_datasource_validator.Exec.Keeps.{Keeps, Keeps-bind, Keeps-pure}

abbrev pub Okay : {A : Type 0} → (A → Type 0) → Result A → Type 0
Okay Q (ok a) = Q a
Okay Q (err e) = Unit

pub record Gives {S A : Type 0} (P : S → Type 0) (Q : A → Type 0) (m : Exec S A) : Type 0 where
  pub from : (s : S) → P s → P (m s).1 × Okay Q (m s).0

module _ {S A B : Type 0} {P : S → Type 0} {Q : A → Type 0} where
  -- What follows may use the property of the answer.
  pub Gives-then-Keeps :
      (m : Exec S A) (f : A → Exec S B)
      → Gives P Q m
      → ((a : A) → Q a → Keeps P (f a))
      → Keeps P (m >>= f)
  unfolding ◌>>=◌
  Gives-then-Keeps m f g kf = record {
    from = λ s h. let (r, s') = m s in resumed r s' (g.from s h).0 (g.from s h).1;
  }
    where
      resumed : (r : Result A) (s' : S) → P s' → Okay Q r → P (resume r f s').1
      resumed (ok a) s' p q = (kf a q).from s' p
      resumed (err e) s' p q = p

module _ {S A B : Type 0} {P : S → Type 0} {Q : A → Type 0} {R : B → Type 0} where
  pub Gives-then-Gives :
      (m : Exec S A) (f : A → Exec S B)
      → Gives P Q m
      → ((a : A) → Q a → Gives P R (f a))
      → Gives P R (m >>= f)
  unfolding ◌>>=◌
  Gives-then-Gives m f g gf = record {
    from = λ s h. let (r, s') = m s in resumed r s' (g.from s h).0 (g.from s h).1;
  }
    where
      resumed :
          (r : Result A) (s' : S) → P s' → Okay Q r → P (resume r f s').1 × Okay R (resume r f s').0
      resumed (ok a) s' p q = (gf a q).from s' p
      resumed (err e) s' p q = (p, tt)

module _ {S A : Type 0} {P : S → Type 0} {Q : A → Type 0} where
  pub Gives-pure : (a : A) → Q a → Gives P Q (pure a)
  unfolding pure
  Gives-pure a q = record { from = λ s h. (h, q) }

  pub Keeps-for_each-All :
      (xs : List A) (body : A → Exec S (Unit {0}))
      → All Q xs
      → ((a : A) → Q a → Keeps P (body a))
      → Keeps P (for_each xs body)
  unfolding for_each
  Keeps-for_each-All [] body all kb = Keeps-pure tt
  Keeps-for_each-All (x ∷ xs) body (q, all) kb =
      Keeps-bind (body x) (λ _. for_each xs body) (kb x q) (λ _. Keeps-for_each-All xs body all kb)

pub Keeps-Gives :
    {S A : Type 0} {P : S → Type 0} (m : Exec S A) → Keeps P m → Gives P (λ (a : A). Unit {0}) m
Keeps-Gives {A = A} m k = record { from = λ s h. (k.from s h, unit (m s).0) }
  where
    unit : (r : Result A) → Okay (λ (a : A). Unit {0}) r
    unit (ok a) = tt
    unit (err e) = tt
