-- ===== src/Exec.antt =====
-- Methods that change the stores and may raise: an exception does not undo what was written, so
-- every answer comes with the state as it is then.
pub mod Keeps
pub mod Gives
use app_datasource_validator.Prelude.{
  ◌≡◌, refl, Bool, Option, none, some, List, [], ◌∷◌, if◌then◌else◌,
}

-- The exception classes that the handlers tell apart; messages are left out.
pub data Error : Type 0 where
  validation_error capability_error credential_error not_found value_error key_error rest_error :
      Error

pub data Result {ℓ} (A : Type ℓ) : Type ℓ where
  ok : A → Result A
  err : Error → Result A

abbrev pub Exec {ℓ} : Type ℓ → Type ℓ → Type ℓ
Exec S A = S → Result A × S

module _ {ℓ} {S A : Type ℓ} where
  -- The state stays, and the answer is known.
  unfoldable pub lift : Result A → Exec S A
  lift r now = (r, now)

  unfoldable pub raise : Error → Exec S A
  raise e now = (err e, now)

  unfoldable pub pure : A → Exec S A
  pure a now = (ok a, now)

unfoldable pub modify : {S : Type 0} → (S → S) → Exec S (Unit {0})
modify f s = (ok tt, f s)

module _ {ℓ} {S A B : Type ℓ} where
  abbrev pub resume : Result A → (A → Exec S B) → Exec S B
  resume (err e) rest now = (err e, now)
  resume (ok a) rest now = rest a now

  infixl 10 ◌>>=◌ ◌>>◌
  unfoldable pub ◌>>=◌ : Exec S A → (A → Exec S B) → Exec S B
  unfolding pure raise lift
  ◌>>=◌ start rest now = let (answer, later) = start now in resume answer rest later

  abbrev pub ◌>>◌ : Exec S A → Exec S B → Exec S B
  first >> second = first >>= λ _. second

-- After an action that returned, the rest goes on with its answer and from the state it left.
pub bind-ok :
    {S A B : Type 0} (m : Exec S A) (f : A → Exec S B) (s : S) (a : A) (s' : S)
    → m s ≡ (ok a, s')
    → (m >>= f) s ≡ f a s'
unfolding ◌>>=◌
bind-ok m f s a s' h = rw h refl

-- `for x in xs: body(x)`
unfoldable pub for_each : {S A : Type 0} → List A → (A → Exec S (Unit {0})) → Exec S (Unit {0})
for_each [] body = pure tt
for_each (x ∷ xs) body = body x >> for_each xs body
