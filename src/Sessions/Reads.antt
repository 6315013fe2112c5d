-- ===== src/Sessions/Reads.antt =====
-- What `get_events` of src/tename/sessions/service.py returns on tables whose logs are dense.
use tename.Prelude.{
  ℕ, zero, suc, ◌+◌, ◌≤◌, ◌≡◌, refl, ap, Bool, false, none, some, List, [], ◌∷◌, ◌++◌, map, arith,
  Bool-cases, filter, ok, ◌∙◌, subst, sym, inl, inr, leb, ltb, ◌&&◌, take, drop, min, length, All,
}
use tename.Json.{pos}
use tename.Sessions.Models.{Event, EventType}
use tename.Sessions.Store.{
  Db, Postgres, in_session, not_after, of_types, insert_by_sequence, order_by_sequence, selects,
  select_events,
}
use tename.Sessions.Service.{get_events, max_events_limit, default_events_limit}
use tename.Sessions.Sequence.{IsDense, log, last_sequence, sequence_of, count_up}
use tename.Sessions.Calls.{Call, run}
use tename.Sessions.Traces.{run-IsDense, log-run-StartsWith}

-- A filter by two tests is two filters.
filter-and :
    (p q : Event → Bool) (es : List Event) → filter (λ e. p e && q e) es ≡ filter q (filter p es)
filter-and p q [] = refl
filter-and p q (e ∷ es) = ground (arith, filter-and p q es)

-- Every event comes before the later ones in the list.
abbrev IsOrdered : List Event → Type 0
IsOrdered [] = Unit
IsOrdered (e ∷ es) = All (λ x. e.sequence ≤ x.sequence) es × IsOrdered es

insert_first :
    (e : Event) (es : List Event)
    → All (λ x. e.sequence ≤ x.sequence) es
    → insert_by_sequence e es ≡ e ∷ es
unfolding insert_by_sequence
insert_first e [] h = refl
insert_first e (x ∷ xs) h = ground arith

order_ordered : (es : List Event) → IsOrdered es → order_by_sequence es ≡ es
unfolding order_by_sequence
order_ordered [] h = refl
order_ordered (e ∷ es) h = rw (order_ordered es h.1) (insert_first e es h.0)

All-filter :
    (n : ℕ) (p : Event → Bool) (es : List Event)
    → All (λ x. n ≤ x.sequence) es
    → All (λ x. n ≤ x.sequence) (filter p es)
All-filter n p [] h = tt
All-filter n p (e ∷ es) h = elim (Bool-cases (p e)) [
  | inl kept ↦ rw kept (h.0, All-filter n p es h.1)
  | inr gone ↦ rw gone (All-filter n p es h.1)
]

filter-IsOrdered : (p : Event → Bool) (es : List Event) → IsOrdered es → IsOrdered (filter p es)
filter-IsOrdered p [] h = tt
filter-IsOrdered p (e ∷ es) h = elim (Bool-cases (p e)) [
  | inl kept ↦ rw kept (All-filter e.sequence p es h.0, filter-IsOrdered p es h.1)
  | inr gone ↦ rw gone (filter-IsOrdered p es h.1)
]

-- Events that are numbered from some start on.
abbrev Numbered : ℕ → List Event → Type 0
Numbered start [] = Unit
Numbered start (e ∷ es) = (e.sequence ≡ start) × Numbered (start + 1) es

Numbered-of_counts :
    (start n : ℕ) (es : List Event) → map sequence_of es ≡ count_up start n → Numbered start es
unfolding count_up
Numbered-of_counts start n [] h = tt
Numbered-of_counts start zero (e ∷ es) h = cc
Numbered-of_counts start (suc n) (e ∷ es) h = (cc, Numbered-of_counts (start + 1) n es (cc))

Numbered-above :
    (start n : ℕ) (es : List Event) → n ≤ start → Numbered start es → All (λ x. n ≤ x.sequence) es
Numbered-above start n [] le h = tt
Numbered-above start n (e ∷ es) le h =
    (omega arith, Numbered-above (start + 1) n es (omega arith) h.1)

Numbered-IsOrdered : (start : ℕ) (es : List Event) → Numbered start es → IsOrdered es
Numbered-IsOrdered start [] h = tt
Numbered-IsOrdered start (e ∷ es) h = (
  Numbered-above (start + 1) e.sequence es (omega arith) h.1,
  Numbered-IsOrdered (start + 1) es h.1,
)

filter-All :
    (n : ℕ) (es : List Event)
    → All (λ x. n ≤ x.sequence) es
    → filter (λ e. leb n e.sequence) es ≡ es
filter-All n [] h = refl
filter-All n (e ∷ es) h = ground (arith, filter-All n es h.1)

filter-eq-drop :
    (start n m : ℕ) (es : List Event)
    → m ≡ start + n
    → Numbered start es
    → filter (λ e. leb m e.sequence) es ≡ drop n es
filter-eq-drop start zero m es at_start h =
    filter-All m es (Numbered-above start m es (omega arith) h)
filter-eq-drop start (suc n) m [] later h = refl
filter-eq-drop start (suc n) m (e ∷ es) later h = ground (arith, filter-eq-drop (start + 1) n m es)

-- The WHERE clause with a start and neither an end nor types.
abbrev from : ℕ → Event → Bool
from m e = leb m e.sequence

selects_from :
    (session_id m : ℕ) (e : Event)
    → selects session_id m none [] e ≡ (in_session session_id e && from m e)
unfolding selects
selects_from session_id m e = ground arith

filter_ext :
    (p q : Event → Bool) (es : List Event) → ((e : Event) → p e ≡ q e) → filter p es ≡ filter q es
filter_ext p q [] h = refl
filter_ext p q (e ∷ es) h = ground (arith, h e, filter_ext p q es h)

module _ (session_id n : ℕ) (db : Db) (dense : IsDense db) where
  log-Numbered : Numbered 1 (log session_id db)
  log-Numbered =
      Numbered-of_counts 1 (last_sequence session_id db) (log session_id db)
        (dense.counts session_id)

  after_n : filter (from (n + 1)) (log session_id db) ≡ drop n (log session_id db)
  after_n = filter-eq-drop 1 n (n + 1) (log session_id db) (omega arith) log-Numbered

  drop-IsOrdered : IsOrdered (drop n (log session_id db))
  drop-IsOrdered = subst IsOrdered after_n (
      filter-IsOrdered (from (n + 1)) (log session_id db)
        (Numbered-IsOrdered 1 (log session_id db) log-Numbered))

  selected : filter (selects session_id (n + 1) none []) db.events ≡ drop n (log session_id db)
  selected =
      filter_ext (selects session_id (n + 1) none [])
        (λ e. in_session session_id e && from (n + 1) e) db.events (selects_from session_id (n + 1))
      ∙ filter-and (in_session session_id) (from (n + 1)) db.events
      ∙ after_n

  select_events_from :
      (limit : ℕ)
      → select_events session_id (n + 1) none [] limit db ≡ take limit (drop n (log session_id db))
  unfolding select_events
  select_events_from limit =
      rw selected (rw (order_ordered (drop n (log session_id db)) drop-IsOrdered))

not_below : (m n : ℕ) → m ≤ n → ltb n m ≡ false
not_below m n h = ground arith

-- On dense logs, reading from position n + 1 with a positive limit returns what follows the first n
-- events of the log, in order, up to the limit and at most 10,000 of them.
pub get_events_from :
    (session_id n limit : ℕ) (db : Db)
    → IsDense db
    → 1 ≤ limit
    → get_events session_id (some (pos (n + 1))) none [] (pos limit) db
      ≡ ok (take (min limit max_events_limit) (drop n (log session_id db)))
unfolding get_events
get_events_from session_id n limit db dense some_limit = rw (not_below 1 limit some_limit) (
    rw (not_below 1 (n + 1) (omega arith))
      (ap ok (select_events_from session_id n db dense (min limit max_events_limit))))

-- On dense logs, a read with the default arguments returns the first 1,000 events of a session.
pub get_events_default :
    (session_id : ℕ) (db : Db)
    → IsDense db
    → get_events session_id none none [] (pos default_events_limit) db
      ≡ ok (take default_events_limit (log session_id db))
unfolding get_events
get_events_default session_id db dense = ap ok (select_events_from session_id 0 db dense 1000)

-- The events of a range of positions and of some types.
abbrev pub in_range : ℕ → ℕ → List EventType → Event → Bool
in_range first last types e =
    leb first e.sequence && (not_after (some last) e.sequence && of_types types e.type)

selects-in_range :
    (session_id first last : ℕ) (types : List EventType) (e : Event)
    → selects session_id first (some last) types e
      ≡ (in_session session_id e && in_range first last types e)
unfolding selects
selects-in_range session_id first last types e = refl

-- On dense logs, reading a range of positions and some types with a positive limit returns the events of the log that lie in the range
-- and have one of the types (any type, if the list is empty), in the order of the log, up to the
-- limit and at most 10,000 of them.
pub get_events_range :
    (session_id first last limit : ℕ) (types : List EventType) (db : Db)
    → IsDense db
    → 1 ≤ limit
    → 1 ≤ first
    → first ≤ last
    → get_events session_id (some (pos first)) (some (pos last)) types (pos limit) db
      ≡ ok (
          take
            (min limit max_events_limit)
            (filter (in_range first last types) (log session_id db)))
unfolding get_events select_events
get_events_range session_id first last limit types db dense some_limit positive_start in_order =
    let chosen : filter (selects session_id first (some last) types) db.events
        ≡ filter (in_range first last types) (log session_id db) =
      filter_ext (selects session_id first (some last) types)
        (λ e. in_session session_id e && in_range first last types e) db.events
        (selects-in_range session_id first last types)
      ∙ filter-and (in_session session_id) (in_range first last types) db.events in
    let ordered : order_by_sequence (filter (in_range first last types) (log session_id db))
        ≡ filter (in_range first last types) (log session_id db) =
      order_ordered _ (
        filter-IsOrdered (in_range first last types) (log session_id db)
          (Numbered-IsOrdered 1 (log session_id db) (log-Numbered session_id first db dense))) in
    rw (not_below 1 limit some_limit) (
      rw (not_below 1 first positive_start)
        (rw (not_below first last in_order) (rw chosen (rw ordered))))

take-append : (n : ℕ) (xs ys : List Event) → n ≤ length xs → take n (xs ++ ys) ≡ take n xs
take-append zero xs ys h = refl
take-append (suc n) [] ys h = absurd (omega arith)
take-append (suc n) (x ∷ xs) ys h = ap (λ l. x ∷ l) (take-append n xs ys (omega arith))

-- On dense logs, once a session has 1,000 events, a read with the default arguments returns the same events after
-- any further calls: what these append is not seen.
pub get_events_saturates :
    (pg : Postgres) (session_id : ℕ) (db : Db) (calls : List Call)
    → IsDense db
    → default_events_limit ≤ length (log session_id db)
    → get_events session_id none none [] (pos default_events_limit) (run pg db calls)
      ≡ get_events session_id none none [] (pos default_events_limit) db
get_events_saturates pg session_id db calls dense many =
    let grown = log-run-StartsWith pg session_id db calls dense in
    get_events_default session_id (run pg db calls) (run-IsDense pg db calls dense)
    ∙ ap (λ l. ok (take 1000 l)) grown.is_log
    ∙ ap ok (take-append 1000 (log session_id db) grown.added many)
    ∙ sym (get_events_default session_id db dense)
