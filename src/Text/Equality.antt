-- ===== src/Text/Equality.antt =====
-- The tests on texts decide equality and membership, and the order on texts is total.
use app_datasource_validator.Prelude.{
  ◌≡◌, refl, ◌↔◌, ◌⊎◌, inl, inr, true, List, [], ◌∷◌, Any, arith, Bool-cases,
}
use app_datasource_validator.Text.{Text, text_eq, text_leb, mem_text, frozenset}

pub text_eq→eq : (s t : Text) → text_eq s t ≡ true → s ≡ t
unfolding text_eq
text_eq→eq [] [] h = refl
text_eq→eq [] (d ∷ t) h = cc
text_eq→eq (c ∷ s) [] h = cc
text_eq→eq (c ∷ s) (d ∷ t) h = ground (arith, text_eq→eq s t)

pub text_eq_refl : (s : Text) → text_eq s s ≡ true
unfolding text_eq
text_eq_refl [] = refl
text_eq_refl (c ∷ s) = ground (arith, text_eq_refl s)

-- Membership of a text in a list, as a type.
abbrev pub In : Text → List Text → Type 0
In c = Any (λ x. c ≡ x)

pub mem_text→In : (c : Text) (xs : List Text) → mem_text c xs ≡ true → In c xs
unfolding mem_text
mem_text→In c [] h = cc
mem_text→In c (x ∷ xs) h = elim (Bool-cases (text_eq c x)) [
  | inl e ↦ inl (text_eq→eq c x e)
  | inr e ↦ inr (mem_text→In c xs (ground (arith, e)))
]

pub In→mem_text : (c : Text) (xs : List Text) → In c xs → mem_text c xs ≡ true
unfolding mem_text
In→mem_text c [] m = elim m [ ]
In→mem_text c (x ∷ xs) (inl e) = rw e (ground (arith, text_eq_refl x))
In→mem_text c (x ∷ xs) (inr m) = ground (arith, In→mem_text c xs m)

pub In-frozenset : (c : Text) (xs : List Text) → In c (frozenset xs) ↔ In c xs
unfolding frozenset
In-frozenset c [] = (λ m. m, λ m. m)
In-frozenset c (x ∷ xs) =
    let ih = In-frozenset c xs in
    elim (Bool-cases (mem_text x (frozenset xs))) [
      | inl dup ↦ rw dup (
        λ m. inr (ih.0 m),
        elim [ inl e ↦ rw e (mem_text→In x (frozenset xs) dup) | inr m ↦ ih.1 m ],
      )
      | inr new ↦ rw new (
        elim [ inl e ↦ inl e | inr m ↦ inr (ih.0 m) ],
        elim [ inl e ↦ inl e | inr m ↦ inr (ih.1 m) ],
      )
    ]

pub text_leb_total : (s t : Text) → (text_leb s t ≡ true) ⊎ (text_leb t s ≡ true)
unfolding text_leb
text_leb_total [] t = inl refl
text_leb_total (c ∷ s) [] = inr refl
text_leb_total (c ∷ s) (d ∷ t) = ground (arith, text_leb_total s t)

pub text_leb_trans :
    (s t u : Text) → text_leb s t ≡ true → text_leb t u ≡ true → text_leb s u ≡ true
unfolding text_leb
text_leb_trans [] t u h k = refl
text_leb_trans (c ∷ s) [] u h k = cc
text_leb_trans (c ∷ s) (d ∷ t) [] h k = cc
text_leb_trans (c ∷ s) (d ∷ t) (e ∷ u) h k = ground (arith, text_leb_trans s t u)
