-- ===== src/Tests/QueueRuns.antt =====
-- Two events and an exception through the queue, the first taken out before the second is put in.
use tename.Prelude.{ℕ, ◌<◌, refl, some, [], ◌∷◌}
use tename.Sdk.Queue.{
  event, exception, sentinel, yielding, raised, all_puts, take_item, Sync, Step, puts, gets,
  resumes, Reach, started, later,
}
use tename.Sdk.Queues.{measure, Stands, send_agrees}

abbrev first : Sync ℕ ℕ
first = record {
  left = event 8 ∷ exception 5 ∷ sentinel ∷ [];
  queue = [];
  out = 7 ∷ [];
  consumer = yielding;
}

first-Reach : Reach (7 ∷ 8 ∷ []) (some 5) first
unfolding all_puts take_item
first-Reach = later (later started (puts _ (event 7) _ refl)) (gets _ (event 7) [] refl refl)

abbrev last : Sync ℕ ℕ
last = record { left = sentinel ∷ []; queue = []; out = 7 ∷ 8 ∷ []; consumer = raised 5 }

last-Reach : Reach (7 ∷ 8 ∷ []) (some 5) last
unfolding take_item
last-Reach =
    let put_both =
      later (later (later first-Reach (puts _ (event 8) _ refl)) (puts _ (exception 5) _ refl))
        (resumes _ refl) in
    later (later (later put_both (gets _ (event 8) (exception 5 ∷ []) refl refl)) (resumes _ refl))
      (gets _ (exception 5) [] refl refl)

send_agrees_example :
    Stands (7 ∷ 8 ∷ []) (some 5) last × ((t : Sync ℕ ℕ) → Step last t → measure t < measure last)
send_agrees_example = send_agrees (7 ∷ 8 ∷ []) (some 5) last last-Reach
