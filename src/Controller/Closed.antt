-- ===== src/Controller/Closed.antt =====
-- A queue item that is closed, with the status DONE, ERROR or CANCELLED, stays as it is.
pub mod Operations
pub mod Ticks
use app_datasource_validator.Prelude.{
  ℕ, String, ◌==◌, eq_iff, ◌≡◌, refl, sym, ap, ◌∙◌, ◌≢◌, Bool, true, false, not, ◌&&◌, ◌||◌, Option,
  none, some, List, [], ◌∷◌, ◌++◌, arith, All, All-map, All-keep, keep, is_some, if◌then◌else◌, inl,
  inr, Bool-cases,
}
use app_datasource_validator.Kv.{Collection, find, replace, docs}
use app_datasource_validator.Kv.Laws.{find-replace, find-append_other}
use app_datasource_validator.Models.Queue.{QueueItem, queue_status_queued, queue_status_running}
use app_datasource_validator.Stores.{Stores}
use app_datasource_validator.Controller.Frame.{Framed}

abbrev pub is_open : QueueItem → Bool
is_open i = i.status == queue_status_queued || (i.status == queue_status_running)

module _ (k : String) where
  -- The entry stands under its identifier, and it is closed if that is `k`.
  abbrev pub IsSound : String × QueueItem → Type 0
  IsSound (j, i) = (i.queue_id ≡ j) × (j ≡ k → is_open i ≡ false)

  abbrev pub Sound : Collection QueueItem → Type 0
  Sound = All IsSound

  -- `k` stands for the closed item `i`.
  pub record Holds (i : QueueItem) (s : Stores) : Type 0 where
    pub sound : Sound s.queue
    pub held : find k s.queue ≡ some i

  pub Holds-Framed : {i : QueueItem} → Framed (Holds i)
  Holds-Framed = record {
    by_queue = λ s s' same h. record { sound = rw same h.sound; held = rw same h.held };
  }

  Sound-append :
      (c : Collection QueueItem) (e : String × QueueItem)
      → Sound c
      → IsSound e
      → Sound (c ++ e ∷ [])
  Sound-append [] e h he = (he, tt)
  Sound-append (d ∷ c) e (hd, h) he = (hd, Sound-append c e h he)

  Sound-replace :
      (id : String) (d : QueueItem) (c : Collection QueueItem)
      → Sound c
      → d.queue_id ≡ id
      → id ≢ k
      → Sound (replace id d c)
  unfolding replace
  Sound-replace id d [] h q other = tt
  Sound-replace id d ((j, x) ∷ c) (hx, h) q other = elim (Bool-cases (j == id)) [
    | inl same ↦
        rw same (
          (q ∙ sym ((eq_iff j id).0 same), λ e. absurd (other (sym ((eq_iff j id).0 same) ∙ e))),
          h,
        )
    | inr later ↦ rw later (hx, Sound-replace id d c h q other)
  ]

  -- What a store reads under an identifier has that identifier.
  Sound-id :
      (id : String) (c : Collection QueueItem) (d : QueueItem)
      → Sound c
      → find id c ≡ some d
      → d.queue_id ≡ id
  unfolding find
  Sound-id id [] d h e = ground (arith, e)
  Sound-id id ((j, x) ∷ c) d (hx, h) e = ground (arith, e, hx, eq_iff j id, Sound-id id c d h)

  no : true ≡ false → ⊥
  no e = cc

  apart : (id : String) → id ≢ k → (id == k) ≡ false
  apart id other = elim (Bool-cases (id == k)) [
    | inl same ↦ absurd (other ((eq_iff id k).0 same))
    | inr e ↦ e
  ]

  module _ {i : QueueItem} (s : Stores) (h : Holds i s) where
    pub Holds-replace :
        (id : String) (d : QueueItem)
        → d.queue_id ≡ id
        → id ≢ k
        → Holds i (record s { queue = replace id d s.queue })
    Holds-replace id d q other = record {
      sound = Sound-replace id d s.queue h.sound q other;
      held = rw (find-replace id k d s.queue) (rw (apart id other) h.held);
    }

    free_apart : (id : String) → find id s.queue ≡ none → id ≢ k
    free_apart id free e = no (ap is_some (sym h.held ∙ ap (λ j. find j s.queue) (sym e) ∙ free))

    pub Holds-append :
        (id : String) (d : QueueItem)
        → d.queue_id ≡ id
        → find id s.queue ≡ none
        → Holds i (record s { queue = s.queue ++ (id, d) ∷ [] })
    Holds-append id d q free = record {
      sound = Sound-append s.queue (id, d) h.sound (q, λ e. absurd (free_apart id free e));
      held = rw (find-append_other id k d s.queue (apart id (free_apart id free))) h.held;
    }

  open_apart :
      (c : Collection QueueItem) → Sound c → All (λ i. is_open i ≡ true → i.queue_id ≢ k) (docs c)
  unfolding docs
  open_apart [] h = tt
  open_apart ((j, i) ∷ c) ((q, closed), h) =
      (λ waits e. absurd (no (sym waits ∙ closed (sym q ∙ e))), open_apart c h)
