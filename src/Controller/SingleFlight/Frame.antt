-- ===== src/Controller/SingleFlight/Frame.antt =====
-- The number of RUNNING items in the queue, and the actions of the stores that do not raise it.
use app_datasource_validator.Prelude.{
  ℕ, suc, ◌≤◌, String, ◌==◌, ◌≡◌, ap, Bool, false, [], ◌∷◌, arith, tally, tally-append,
}
use app_datasource_validator.Kv.{docs}
use app_datasource_validator.Kv.Laws.{docs-append, tally-replace_le}
use app_datasource_validator.Exec.Keeps.{Keeps}
use app_datasource_validator.Models.Queue.{QueueItem, queue_status_running}
use app_datasource_validator.Controller.Frame.{Framed}
use app_datasource_validator.Stores.{Stores, insert, update, queue_slot}

abbrev pub is_running : QueueItem → Bool
is_running i = i.status == queue_status_running

abbrev pub running : Stores → ℕ
running s = tally is_running (docs s.queue)

-- At most `n` items are RUNNING.
pub record AtMost (n : ℕ) (s : Stores) : Type 0 where
  pub bound : running s ≤ n

pub AtMost-Framed : {n : ℕ} → Framed (AtMost n)
AtMost-Framed = record { by_queue = λ s s' h p. record { bound = rw h p.bound } }

module _ {n : ℕ} where
  -- A new item that is not RUNNING.
  pub AtMost-insert_item :
      (key : String) (doc : QueueItem)
      → is_running doc ≡ false
      → Keeps (AtMost n) (insert queue_slot key doc)
  unfolding insert docs
  AtMost-insert_item key doc idle = record {
    from = λ s p. record {
      bound = ground (
        arith,
        p.bound,
        ap (tally is_running) (docs-append s.queue ((key, doc) ∷ [])),
        tally-append is_running (docs s.queue) (doc ∷ []),
      );
    };
  }

  -- An item that is not RUNNING afterwards.
  pub AtMost-update_item :
      (key : String) (doc : QueueItem)
      → is_running doc ≡ false
      → Keeps (AtMost n) (update queue_slot key doc)
  unfolding update
  AtMost-update_item key doc idle = record {
    from = λ s p. record {
      bound = ground (arith, p.bound, idle, tally-replace_le is_running key doc s.queue);
    };
  }

  -- Any item: one more at most.
  pub update_item-one_more :
      (key : String) (doc : QueueItem) (s : Stores)
      → AtMost n s
      → AtMost (suc n) (update queue_slot key doc s).1
  unfolding update
  update_item-one_more key doc s p = record {
    bound = ground (arith, p.bound, tally-replace_le is_running key doc s.queue);
  }
