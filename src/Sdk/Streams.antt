-- ===== src/Sdk/Streams.antt =====
-- What `_stream_events` of src/tename/sdk/sessions.py yields: the log, each event once.
use tename.Prelude.{
  Bool, ℕ, zero, suc, ◌+◌, ◌≤◌, ◌≡◌, refl, ap, sym, ◌∙◌, subst, List, [], ◌∷◌, ◌++◌, ok, map,
  length, take, drop, length-append, append_assoc, arith,
}
use tename.Sessions.Models.{Event}
use tename.Sessions.Store.{Db, Postgres}
use tename.Sessions.Sequence.{IsDense, log, sequence_of, count_up, last_sequence}
use tename.Sessions.Calls.{Call, run}
use tename.Sessions.Traces.{StartsWith, run-IsDense, log-run-StartsWith}
use tename.Sessions.Reads.{get_events_from}
use tename.Sdk.Sessions.{Rounds, waits, drains, breaks, last_of, read_after, stream_events}

-- The events are numbered from s + 1 on.
abbrev pub Numbered : ℕ → List Event → Type 0
Numbered s [] = Unit
Numbered s (e ∷ es) = (e.sequence ≡ s + 1) × Numbered (s + 1) es

pub counted-Numbered :
    (s n : ℕ) (es : List Event) → map sequence_of es ≡ count_up (s + 1) n → Numbered s es
unfolding count_up
counted-Numbered s n [] h = tt
counted-Numbered s zero (e ∷ es) h = absurd (cc h)
counted-Numbered s (suc n) (e ∷ es) h = (cc h, counted-Numbered (s + 1) n es cc h)

after-Numbered :
    (s : ℕ) (front tail : List Event)
    → Numbered s (front ++ tail)
    → Numbered (s + length front) tail
after-Numbered s [] tail h =
    let same : s ≡ s + 0 = omega arith in subst (λ k. Numbered k tail) same h
after-Numbered s (e ∷ es) tail h =
    let same : s + 1 + length es ≡ s + suc (length es) = omega arith in
    subst (λ k. Numbered k tail) same (after-Numbered (s + 1) es tail h.1)

pub take-Numbered : (s n : ℕ) (es : List Event) → Numbered s es → Numbered s (take n es)
take-Numbered s zero es h = tt
take-Numbered s (suc n) [] h = tt
take-Numbered s (suc n) (e ∷ es) h = (h.0, take-Numbered (s + 1) n es h.1)

pub last_of-Numbered : (s : ℕ) (es : List Event) → Numbered s es → last_of s es ≡ s + length es
unfolding last_of
last_of-Numbered s [] h = omega arith
last_of-Numbered s (e ∷ es) h =
    ap (λ k. last_of k es) h.0 ∙ last_of-Numbered (s + 1) es h.1 ∙ omega arith

pub take-drop : (n : ℕ) (es : List Event) → take n es ++ drop n es ≡ es
take-drop zero es = refl
take-drop (suc n) [] = refl
take-drop (suc n) (e ∷ es) = ap (λ l. e ∷ l) (take-drop n es)

drop-length : (xs ys : List Event) → drop (length xs) (xs ++ ys) ≡ ys
drop-length [] ys = refl
drop-length (x ∷ xs) ys = drop-length xs ys

take_all : (n : ℕ) (es : List Event) → length es ≤ n → take n es ≡ es
take_all zero [] h = refl
take_all zero (e ∷ es) h = absurd (omega (arith, h))
take_all (suc n) [] h = refl
take_all (suc n) (e ∷ es) h = ap (λ l. e ∷ l) (take_all n es (omega (arith, h)))

drop_all : (n : ℕ) (es : List Event) → length es ≤ n → drop n es ≡ []
drop_all zero [] h = refl
drop_all zero (e ∷ es) h = absurd (omega (arith, h))
drop_all (suc n) [] h = refl
drop_all (suc n) (e ∷ es) h = drop_all n es (omega (arith, h))

-- The tables that a round sees come from those before it by calls of the session service.
pub record IsLater (pg : Postgres) (db db' : Db) : Type 0 where
  pub calls : List Call
  pub reaches : run pg db calls ≡ db'

abbrev pub Follow : Postgres → Db → Rounds → Type 0
Follow pg db (waits seen rest) = IsLater pg db seen × Follow pg seen rest
Follow pg db (drains raised seen trailing) = IsLater pg db seen × IsLater pg seen trailing
Follow pg db (breaks seen) = IsLater pg db seen

-- The tables of the last read.
abbrev pub last_seen : Rounds → Db
last_seen (waits seen rest) = last_seen rest
last_seen (drains raised seen trailing) = trailing
last_seen (breaks seen) = seen

module _ (pg : Postgres) (session_id : ℕ) where
  -- A log of which a front has been yielded.
  record At (last : ℕ) (front : List Event) (db : Db) : Type 0 where
    pub dense : IsDense db
    pub tail : List Event
    pub splits : log session_id db ≡ front ++ tail
    pub counts : length front ≡ last

  At-later :
      {last : ℕ} {front : List Event} {db db' : Db}
      → At last front db
      → IsLater pg db db'
      → At last front db'
  At-later {last} {front} {db} {db'} at l =
      let grown =
        subst (StartsWith session_id (log session_id db)) l.reaches
          (log-run-StartsWith pg session_id db l.calls at.dense) in
      record {
        dense = subst IsDense l.reaches (run-IsDense pg db l.calls at.dense);
        tail = at.tail ++ grown.added;
        splits =
            grown.is_log
            ∙ ap (λ l. l ++ grown.added) at.splits
            ∙ append_assoc front at.tail grown.added;
        counts = at.counts;
      }

  read_after_lem :
      {last : ℕ} {front : List Event} {db : Db} (at : At last front db)
      → read_after session_id last db ≡ ok (take 1000 at.tail)
  read_after_lem {last} {front} {db} at =
      get_events_from session_id last 1000 db at.dense (omega arith)
      ∙ ap (λ l. ok (take 1000 l))
          (ap (drop last) at.splits
            ∙ ap (λ k. drop k (front ++ at.tail)) (sym at.counts)
            ∙ drop-length front at.tail)

  tail-Numbered :
      {last : ℕ} {front : List Event} {db : Db} (at : At last front db) → Numbered last at.tail
  tail-Numbered {last} {front} {db} at =
      let from : 0 + length front ≡ last = omega (arith, at.counts) in
      subst (λ k. Numbered k at.tail) from
        (after-Numbered 0 front at.tail (
          subst (Numbered 0) at.splits (
            counted-Numbered 0 (last_sequence session_id db) (log session_id db)
              (at.dense.counts session_id))))

  At-read :
      {last : ℕ} {front : List Event} {db : Db} (at : At last front db)
      → At (last_of last (take 1000 at.tail)) (front ++ take 1000 at.tail) db
  At-read {last} {front} {db} at = record {
    dense = at.dense;
    tail = drop 1000 at.tail;
    splits =
        at.splits
        ∙ ap (λ l. front ++ l) (sym (take-drop 1000 at.tail))
        ∙ sym (append_assoc front (take 1000 at.tail) (drop 1000 at.tail));
    counts = omega (
      arith,
      length-append front (take 1000 at.tail),
      at.counts,
      last_of-Numbered last (take 1000 at.tail)
          (take-Numbered last 1000 at.tail (tail-Numbered at)),
    );
  }

  -- What the rest of the loop yields, up to the last read.
  record Yields (last : ℕ) (front : List Event) (rounds : Rounds) : Type 0 where
    pub events : List Event
    pub missing : List Event
    pub yields : stream_events session_id last rounds ≡ ok events
    pub in_order : log session_id (last_seen rounds) ≡ front ++ (events ++ missing)
    pub complete : length (log session_id (last_seen rounds)) ≤ last + 1000 → missing ≡ []

  breaks-Yields :
      {last : ℕ} {front : List Event} {db : Db} → At last front db → Yields last front (breaks db)
  unfolding stream_events
  breaks-Yields {last} {front} {db} at = record {
    events = take 1000 at.tail;
    missing = drop 1000 at.tail;
    yields = read_after_lem at;
    in_order = at.splits ∙ ap (λ l. front ++ l) (sym (take-drop 1000 at.tail));
    complete = λ short.
        drop_all 1000 at.tail
          (omega (arith, short, at.counts, ap length at.splits, length-append front at.tail));
  }

  -- A round that is followed by others.
  waits-Yields :
      {last : ℕ} {front : List Event} {seen : Db} (rest : Rounds) (at : At last front seen)
      → Yields (last_of last (take 1000 at.tail)) (front ++ take 1000 at.tail) rest
      → Yields last front (waits seen rest)
  unfolding stream_events
  waits-Yields {last} {front} {seen} rest at y = record {
    events = take 1000 at.tail ++ y.events;
    missing = y.missing;
    yields = rw (read_after_lem at) (rw y.yields refl);
    in_order =
        y.in_order
        ∙ append_assoc front (take 1000 at.tail) (y.events ++ y.missing)
        ∙ ap (λ l. front ++ l) (sym (append_assoc (take 1000 at.tail) y.events y.missing));
    complete = λ short. y.complete (
        omega
          (arith, short, (At-read at).counts, length-append front (take 1000 at.tail), at.counts));
  }

  drains_same :
      (last : ℕ) (raised : Bool) (seen trailing : Db)
      → stream_events session_id last (drains raised seen trailing)
        ≡ stream_events session_id last (waits seen (breaks trailing))
  unfolding stream_events
  drains_same last raised seen trailing = refl

  stream_events-Yields :
      (rounds : Rounds) (last : ℕ) (front : List Event) (db : Db)
      → At last front db
      → Follow pg db rounds
      → Yields last front rounds
  stream_events-Yields (breaks seen) last front db at f = breaks-Yields (At-later at f)
  stream_events-Yields (waits seen rest) last front db at f =
      let now = At-later at f.0 in
      waits-Yields rest now (
        stream_events-Yields rest (last_of last (take 1000 now.tail)) (front ++ take 1000 now.tail)
          seen (At-read now) f.1)
  stream_events-Yields (drains raised seen trailing) last front db at f =
      let now = At-later at f.0 in
      let y = waits-Yields (breaks trailing) now (breaks-Yields (At-later (At-read now) f.1)) in
      record {
        events = y.events;
        missing = y.missing;
        yields = drains_same last raised seen trailing ∙ y.yields;
        in_order = y.in_order;
        complete = y.complete;
      }

  -- Where the logs are dense (numbered 1, 2, ..., last_sequence), and each read sees tables that come
  -- from those before it by calls of the session service: after the first `last` events of the log,
  -- the loop yields events as they stand in the log of its last read, each once and in order, with
  -- none left out between them. It yields all of that log if it has at most 1,000 events more.
  pub stream_events_lem :
      (last : ℕ) (front tail : List Event) (db : Db) (rounds : Rounds)
      → IsDense db
      → log session_id db ≡ front ++ tail
      → length front ≡ last
      → Follow pg db rounds
      → (events : List Event) × (missing : List Event) × (stream_events session_id last rounds
          ≡ ok events)
        × (log session_id (last_seen rounds) ≡ front ++ (events ++ missing))
        × (length (log session_id (last_seen rounds)) ≤ last + 1000 → missing ≡ [])
  stream_events_lem last front tail db rounds dense splits counts f =
      let y =
        stream_events-Yields rounds last front db
          (record { dense = dense; tail = tail; splits = splits; counts = counts }) f in
      (y.events, y.missing, y.yields, y.in_order, y.complete)
