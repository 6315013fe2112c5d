-- ===== src/Sessions/Sequence.antt =====
-- The sequence numbers of src/tename/sessions: each session's log counts 1, 2, ... without a gap.
use tename.Prelude.{
  ℕ, zero, suc, ◌+◌, ◌≤◌, ◌≡◌, refl, ap, Bool, true, false, Option, none, some, List, [], ◌∷◌, ◌++◌,
  map, arith, ◌==◌, if◌then◌else◌, any, filter, filter-append, find?, ok, contains, ◌∙◌, append-nil,
}
use tename.Json.{Fields}
use tename.Sessions.Models.{EventType, Session, Event, is_terminal}
use tename.Sessions.Store.{
  Db, has_session_id, in_session, find_session, is_event, is_sequence, event_row, with_event,
  bump_row, insert_event_and_bump_sequence, find_event_by_id, load_session_for_emit,
}
use tename.Sessions.Service.{append_event}

-- The events of one session, in the order of insertion.
abbrev pub log : ℕ → Db → List Event
log session_id db = filter (in_session session_id) db.events

abbrev pub sequence_of : Event → ℕ
sequence_of e = e.sequence

-- start, start + 1, ..., n numbers
unfoldable pub count_up : ℕ → ℕ → List ℕ
count_up start zero = []
count_up start (suc n) = start ∷ count_up (start + 1) n

abbrev pub last_of : Option Session → ℕ
last_of none = 0
last_of (some s) = s.last_sequence

abbrev pub last_sequence : ℕ → Db → ℕ
last_sequence session_id db = last_of (find_session session_id db)

-- Each session's log counts from 1 to its last_sequence, and no other session has events.
pub record IsDense (db : Db) : Type 0 where
  pub counts :
      (session_id : ℕ)
      → map sequence_of (log session_id db) ≡ count_up 1 (last_sequence session_id db)

count_up-suc : (start n : ℕ) → count_up start n ++ (start + n) ∷ [] ≡ count_up start (n + 1)
unfolding count_up
count_up-suc start zero = ground arith
count_up-suc start (suc n) = ground (arith, count_up-suc (start + 1) n)

contains-count_up : (m start n : ℕ) → start + n ≤ m → contains m (count_up start n) ≡ false
unfolding count_up
contains-count_up m start zero h = refl
contains-count_up m start (suc n) h = ground (arith, contains-count_up m (start + 1) n)

map-append_one :
    (xs : List Event) (e : Event)
    → map sequence_of (xs ++ e ∷ []) ≡ map sequence_of xs ++ e.sequence ∷ []
map-append_one [] e = refl
map-append_one (x ∷ xs) e = ap (λ l. x.sequence ∷ l) (map-append_one xs e)

-- The update of one session seen by a lookup.
pub find-update_session :
    (j k : ℕ) (change : Session → Session) (sessions : List Session)
    → ((s : Session) → (change s).id ≡ s.id)
    → find? (has_session_id j) (map (λ s. if s.id == k then change s else s) sessions) ≡ (
        if j == k
        then (elim (find? (has_session_id j) sessions) [ none ↦ none | some s ↦ some (change s) ])
        else find? (has_session_id j) sessions)
find-update_session j k change [] keeps = ground arith
find-update_session j k change (s ∷ rest) keeps =
    ground (arith, keeps s, find-update_session j k change rest keeps)

-- A lookup that finds nothing, or something, decides whether a row is there.
pub any-find_none {ℓ} :
    {A : Type ℓ} (test : A → Bool) (xs : List A) → find? test xs ≡ none → any test xs ≡ false
any-find_none test [] h = refl
any-find_none test (x ∷ rest) h = ground (arith, any-find_none test rest)

pub any-find_some {ℓ} :
    {A : Type ℓ} (test : A → Bool) (xs : List A) (a : A)
    → find? test xs ≡ some a
    → any test xs ≡ true
any-find_some test [] a h = cc
any-find_some test (x ∷ rest) a h = ground (arith, any-find_some test rest a)

-- No event of a session has a number that its log does not contain.
any-is_sequence :
    (session_id n : ℕ) (events : List Event)
    → any (is_sequence session_id n) events
      ≡ contains n (map sequence_of (filter (in_session session_id) events))
any-is_sequence session_id n [] = refl
any-is_sequence session_id n (e ∷ rest) = ground (arith, any-is_sequence session_id n rest)

module _ (now session_id event_id : ℕ) (event_type : EventType) (payload : Fields) (db : Db)
    {s : Session} (dense : IsDense db) (found : find_session session_id db ≡ some s) where
  abbrev next_row : Event
  next_row = event_row now session_id event_id (s.last_sequence + 1) event_type payload

  next_is_free : any (is_sequence session_id (s.last_sequence + 1)) db.events ≡ false
  next_is_free =
      any-is_sequence session_id (s.last_sequence + 1) db.events
      ∙ ap (contains (s.last_sequence + 1)) (dense.counts session_id)
      ∙ (rw found (contains-count_up (s.last_sequence + 1) 1 s.last_sequence (omega arith)))

  -- A new event of an active session gets the next number, and no constraint stands in the way.
  pub append_event_lem :
      find_event_by_id session_id event_id db ≡ none
      → is_terminal s.status ≡ false
      → append_event now session_id event_id event_type payload db
        ≡ ok (with_event now next_row db, next_row)
  unfolding append_event load_session_for_emit insert_event_and_bump_sequence find_event_by_id
  append_event_lem fresh live = rw (
    found,
    live,
    any-find_none (is_event session_id event_id) db.events fresh,
    next_is_free,
    any-find_some (has_session_id session_id) db.sessions s found,
  )

-- The log of each session after one insert.
pub log-with_event :
    (now j : ℕ) (e : Event) (db : Db)
    → log j (with_event now e db) ≡ (if e.session_id == j then log j db ++ e ∷ [] else log j db)
log-with_event now j e db =
    filter-append (in_session j) db.events (e ∷ []) ∙ ground (arith, append-nil (log j db))

abbrev Counted : Db → ℕ → Type 0
Counted db j = map sequence_of (log j db) ≡ count_up 1 (last_sequence j db)

pub with_event-IsDense :
    (now : ℕ) (e : Event) (db : Db) (s : Session)
    → IsDense db
    → find_session e.session_id db ≡ some s
    → e.sequence ≡ s.last_sequence + 1
    → IsDense (with_event now e db)
with_event-IsDense now e db s dense found next = record {
  counts = λ j. rw (log-with_event now j e db) (
      ground (
        arith,
        dense.counts j,
        found,
        find-update_session j e.session_id (bump_row now e.sequence) db.sessions (λ s. refl),
        map-append_one (log j db) e,
        count_up-suc 1 s.last_sequence,
      ));
}
