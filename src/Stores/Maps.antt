-- ===== src/Stores/Maps.antt =====
-- Collections in which no key stands twice, and what is found after a deletion.
use app_datasource_validator.Prelude.{
  String, ◌==◌, eq_iff, ◌≡◌, none, [], ◌∷◌, arith, if◌then◌else◌, inl, inr, Bool-cases,
}
use app_datasource_validator.Kv.{Collection, find, remove}

module _ {D : Type 0} where
  -- No key stands twice.
  abbrev pub Unique : Collection D → Type 0
  Unique [] = Unit
  Unique ((j, d) ∷ c) = (find j c ≡ none) × Unique c

  pub find-remove :
      (k j : String) (c : Collection D)
      → Unique c
      → find j (remove k c) ≡ (if k == j then none else find j c)
  unfolding find remove
  find-remove k j [] u = ground arith
  find-remove k j ((i, x) ∷ c) (new, u) =
      ground (arith, find-remove k j c u, new, eq_iff i k, eq_iff i j, eq_iff k j)

  pub Unique-remove : (k : String) (c : Collection D) → Unique c → Unique (remove k c)
  unfolding remove
  Unique-remove k [] u = tt
  Unique-remove k ((j, x) ∷ c) (new, u) = elim (Bool-cases (j == k)) [
    | inl same ↦ rw same u
    | inr later ↦ rw later (ground (arith, find-remove k j c u, new), Unique-remove k c u)
  ]
