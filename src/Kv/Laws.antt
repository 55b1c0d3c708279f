-- ===== src/Kv/Laws.antt =====
-- What reads see after writes, and how counts of documents change.
use app_datasource_validator.Prelude.{
  ◌+◌, ◌≤◌, String, ◌==◌, eq_iff, eq_refl, is_some, false, ◌≡◌, refl, Bool, none, some, [], ◌∷◌,
  ◌++◌, ap, arith, tally, if◌then◌else◌,
}
use app_datasource_validator.Kv.{Collection, find, replace, docs}

module _ {D : Type 0} where
  pub find-replace :
      (k j : String) (d : D) (c : Collection D)
      → find j (replace k d c)
        ≡ (if k == j then (elim (find k c) [ none ↦ none | some _ ↦ some d ]) else find j c)
  unfolding find replace
  find-replace k j d [] = ground arith
  find-replace k j d ((i, x) ∷ c) =
      ground (arith, eq_iff k j, eq_iff i k, eq_iff i j, find-replace k j d c)

  pub docs-append : (a b : Collection D) → docs (a ++ b) ≡ docs a ++ docs b
  unfolding docs
  docs-append [] b = refl
  docs-append ((j, d) ∷ a) b = ap (λ l. d ∷ l) (docs-append a b)

  -- Replacing a document exchanges what it counts for.
  pub tally-replace :
      (p : D → Bool) (k : String) (old d : D) (c : Collection D)
      → find k c ≡ some old
      → tally p (docs (replace k d c)) + (if p old then 1 else 0)
        ≡ tally p (docs c) + (if p d then 1 else 0)
  unfolding find replace docs
  tally-replace p k old d [] h = cc
  tally-replace p k old d ((j, x) ∷ c) h = ground (arith, tally-replace p k old d c)

  pub replace-absent : (k : String) (d : D) (c : Collection D) → find k c ≡ none → replace k d c ≡ c
  unfolding find replace
  replace-absent k d [] h = refl
  replace-absent k d ((j, x) ∷ c) h = ground (arith, replace-absent k d c)

  pub tally-replace_le :
      (p : D → Bool) (k : String) (d : D) (c : Collection D)
      → tally p (docs (replace k d c)) ≤ tally p (docs c) + (if p d then 1 else 0)
  unfolding replace docs
  tally-replace_le p k d [] = omega arith
  tally-replace_le p k d ((j, x) ∷ c) = ground (arith, tally-replace_le p k d c)

  pub find-replace_self :
      (k : String) (old d : D) (c : Collection D)
      → find k c ≡ some old
      → find k (replace k d c) ≡ some d
  find-replace_self k old d c h = rw (find-replace k k d c) (rw (eq_refl k, h) refl)

  pub find-append_new :
      (k : String) (d : D) (c : Collection D) → find k c ≡ none → find k (c ++ (k, d) ∷ []) ≡ some d
  unfolding find
  find-append_new k d [] h = rw (eq_refl k) refl
  find-append_new k d ((j, x) ∷ c) h = ground (arith, find-append_new k d c)

  pub find-append_other :
      (k j : String) (d : D) (c : Collection D)
      → (k == j) ≡ false
      → find j (c ++ (k, d) ∷ []) ≡ find j c
  unfolding find
  find-append_other k j d [] h = rw h refl
  find-append_other k j d ((i, x) ∷ c) h = ground (arith, find-append_other k j d c h)

  -- Replacing a document takes no key away, and adds none.
  pub is_some-replace :
      (k j : String) (d : D) (c : Collection D)
      → is_some (find j (replace k d c)) ≡ is_some (find j c)
  unfolding find replace
  is_some-replace k j d [] = refl
  is_some-replace k j d ((i, x) ∷ c) = ground (arith, is_some-replace k j d c)
