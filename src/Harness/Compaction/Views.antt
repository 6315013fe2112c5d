-- ===== src/Harness/Compaction/Views.antt =====
-- The view that a compaction record leaves, in src/tename/harness/compaction.py.
use tename.Prelude.{
  ℕ, suc, ◌≡◌, ◌≢◌, refl, ap, Bool, true, false, not, Option, none, some, List, [], ◌∷◌, ◌++◌, map,
  arith, if◌then◌else◌, any, All, Bool-cases, filter, filter-append, ◌∙◌, sym, inl, inr,
}
use tename.Json.{ℤ, pos, get}
use tename.Sessions.Models.{Event, harness_event, same_type}
use tename.Harness.Profiles.{ContextConfig}
use tename.Harness.Compaction.{
  CompactionDecision, is_compaction_event, latest_compaction, integers, dropped_set, is_number,
  not_in, view_of, apply_compaction_view, items_of, to_payload, sequence_of, filter_index, kept,
  dropped, keeps_at, plan_truncate,
}
use tename.Harness.Compaction.Plans.{plan_truncate_accounts}

-- The event that the harness emits for a decision.
pub record Records (d : CompactionDecision) (c : Event) : Type 0 where
  pub type : c.type ≡ harness_event
  pub payload : c.payload ≡ to_payload d

abbrev pub numbers : List ℕ → List ℤ
numbers = map pos

integers-items_of : (ns : List ℕ) → integers (items_of ns) ≡ numbers ns
unfolding integers items_of
integers-items_of [] = refl
integers-items_of (n ∷ ns) = ap (λ l. pos n ∷ l) (integers-items_of ns)

module _ (d : CompactionDecision) (c : Event) (made : Records d c) where
  record_is_compaction : is_compaction_event c ≡ true
  unfolding is_compaction_event to_payload get same_type
  record_is_compaction = rw (made.type, made.payload) refl

  record_dropped_set :
      dropped_set (get "dropped_sequences" c.payload) ≡ some (numbers d.dropped_sequences)
  unfolding dropped_set to_payload get
  record_dropped_set = rw made.payload (ap some (integers-items_of d.dropped_sequences))

  latest-append_record :
      (events : List Event) (latest : Option Event)
      → latest_compaction (events ++ c ∷ []) latest ≡ some c
  unfolding latest_compaction
  latest-append_record [] latest = rw record_is_compaction
  latest-append_record (e ∷ es) latest =
      latest-append_record es (if is_compaction_event e then some e else latest)

  -- After a record is appended, the view is all that is not in the record's own list.
  view-append_record :
      (events : List Event)
      → apply_compaction_view (events ++ c ∷ [])
        ≡ some (filter (not_in (numbers d.dropped_sequences)) (events ++ c ∷ []))
  unfolding apply_compaction_view
  view-append_record events =
      rw (latest-append_record events none) (rw (record_dropped_set, view_of))

-- No two events have the same number.
abbrev pub Distinct : List Event → Type 0
Distinct [] = Unit
Distinct (e ∷ es) = All (λ x. x.sequence ≢ e.sequence) es × Distinct es

abbrev pub sequences : List Event → List ℤ
sequences es = numbers (map sequence_of es)

absent :
    (n : ℕ) (es : List Event)
    → All (λ x. x.sequence ≢ n) es
    → any (is_number n) (sequences es) ≡ false
absent n [] h = refl
absent n (e ∷ es) h = ground (arith, absent n es h.1, h.0)

All-filter_index :
    (n : ℕ) (test : ℕ → Event → Bool) (i : ℕ) (es : List Event)
    → All (λ x. x.sequence ≢ n) es
    → All (λ x. x.sequence ≢ n) (filter_index test i es)
unfolding filter_index
All-filter_index n test i [] h = tt
All-filter_index n test i (e ∷ es) h = elim (Bool-cases (test i e)) [
  | inl stays ↦ rw stays (h.0, All-filter_index n test (suc i) es h.1)
  | inr goes ↦ rw goes (All-filter_index n test (suc i) es h.1)
]

-- Dropping one more number changes nothing where no event has it.
filter-not_in_cons :
    (n : ℕ) (gone : List ℤ) (es : List Event)
    → All (λ x. x.sequence ≢ n) es
    → filter (not_in (pos n ∷ gone)) es ≡ filter (not_in gone) es
filter-not_in_cons n gone [] h = refl
filter-not_in_cons n gone (e ∷ es) h = ground (arith, h.0, filter-not_in_cons n gone es h.1)

filter-not_in_stays :
    (e : Event) (gone : List ℤ) (es : List Event)
    → any (is_number e.sequence) gone ≡ false
    → filter (not_in gone) (e ∷ es) ≡ e ∷ filter (not_in gone) es
filter-not_in_stays e gone es h = rw h

filter-not_in_goes :
    (e : Event) (gone : List ℤ) (es : List Event)
    → filter (not_in (pos e.sequence ∷ gone)) (e ∷ es) ≡ filter (not_in (pos e.sequence ∷ gone)) es
filter-not_in_goes e gone es = ground arith

module _ (test : ℕ → Event → Bool) where
  abbrev leaves : ℕ → Event → Bool
  leaves i e = not (test i e)

  leaves_stay :
      (i : ℕ) (e : Event) (es : List Event)
      → test i e ≡ true
      → filter_index leaves i (e ∷ es) ≡ filter_index leaves (suc i) es
  unfolding filter_index
  leaves_stay i e es h = rw h

  leaves_go :
      (i : ℕ) (e : Event) (es : List Event)
      → test i e ≡ false
      → filter_index leaves i (e ∷ es) ≡ e ∷ filter_index leaves (suc i) es
  unfolding filter_index
  leaves_go i e es h = rw h

  test_stays :
      (i : ℕ) (e : Event) (es : List Event)
      → test i e ≡ true
      → filter_index test i (e ∷ es) ≡ e ∷ filter_index test (suc i) es
  unfolding filter_index
  test_stays i e es h = rw h

  test_goes :
      (i : ℕ) (e : Event) (es : List Event)
      → test i e ≡ false
      → filter_index test i (e ∷ es) ≡ filter_index test (suc i) es
  unfolding filter_index
  test_goes i e es h = rw h

  -- Filtering out the numbers of what a plan drops is what it keeps.
  filter-dropped :
      (i : ℕ) (es : List Event)
      → Distinct es
      → filter (not_in (sequences (filter_index leaves i es))) es ≡ filter_index test i es
  unfolding filter_index
  filter-dropped i [] h = refl
  filter-dropped i (e ∷ es) h = elim (Bool-cases (test i e)) [
    | inl stays ↦
        (ap (λ l. filter (not_in (sequences l)) (e ∷ es)) (leaves_stay i e es stays)
          ∙ filter-not_in_stays e (sequences (filter_index leaves (suc i) es)) es (
              absent e.sequence (filter_index leaves (suc i) es)
                (All-filter_index e.sequence leaves (suc i) es h.0))
          ∙ ap (λ l. e ∷ l) (filter-dropped (suc i) es h.1)
          ∙ sym (test_stays i e es stays))
    | inr goes ↦
        (ap (λ l. filter (not_in (sequences l)) (e ∷ es)) (leaves_go i e es goes)
          ∙ filter-not_in_goes e (sequences (filter_index leaves (suc i) es)) es
          ∙ filter-not_in_cons e.sequence (sequences (filter_index leaves (suc i) es)) es h.0
          ∙ filter-dropped (suc i) es h.1
          ∙ sym (test_goes i e es goes))
  ]

  -- What a plan drops is among the events.
  dropped_among :
      (n i : ℕ) (es : List Event)
      → any (is_number n) (sequences (filter_index test i es)) ≡ true
      → any (is_number n) (sequences es) ≡ true
  unfolding filter_index
  dropped_among n i [] h = h
  dropped_among n i (e ∷ es) h = ground (arith, dropped_among n (suc i) es)

module _ (events : List Event) (config : ContextConfig) (d : CompactionDecision) (c : Event)
    (made : Records d c) where
  leaves_record :
      All (λ x. x.sequence ≢ c.sequence) events
      → any (is_number c.sequence) (sequences (dropped events config)) ≡ false
  unfolding dropped
  leaves_record h =
      absent c.sequence (dropped events config)
        (All-filter_index c.sequence (leaves (keeps_at events config)) 0 events h)

  leaves_kept :
      Distinct events
      → filter (not_in (sequences (dropped events config))) events ≡ kept events config
  unfolding dropped kept
  leaves_kept h = filter-dropped (keeps_at events config) 0 events h

  -- Before the first compaction the view is the whole log. When the record of a plan on it is
  -- appended, and all numbers are distinct, the view is what the plan keeps, and the record.
  pub first_compaction :
      latest_compaction events none ≡ none
      → Distinct (c ∷ events)
      → plan_truncate events config ≡ some d
      → (apply_compaction_view events ≡ some events)
        × (apply_compaction_view (events ++ c ∷ []) ≡ some (kept events config ++ c ∷ []))
  unfolding apply_compaction_view
  first_compaction first distinct planned = (
    rw (first, view_of),
    view-append_record d c made events
        ∙ ap some (
            rw ((plan_truncate_accounts events config d planned).0) (
              filter-append (not_in (sequences (dropped events config))) events (c ∷ [])
              ∙ rw (leaves_record distinct.0) (ap (λ l. l ++ c ∷ []) (leaves_kept distinct.1)))),
  )

  still_there :
      (active : List Event)
      → plan_truncate active config ≡ some d
      → (e : Event) → any (is_number e.sequence) (numbers d.dropped_sequences) ≡ true
      → any (is_number e.sequence) (sequences active) ≡ true
  unfolding dropped
  still_there active planned e h =
      dropped_among (leaves (keeps_at active config)) e.sequence 0 active
        (rw ((plan_truncate_accounts active config d planned).0) at h)

  keeps_old :
      (active : List Event)
      → plan_truncate active config ≡ some d
      → (es : List Event)
      → filter (not_in (sequences active)) (filter (not_in (numbers d.dropped_sequences)) es)
        ≡ filter (not_in (sequences active)) es
  keeps_old active planned [] = refl
  keeps_old active planned (e ∷ es) =
      ground (arith, still_there active planned e, keeps_old active planned es)

  -- When the record of a plan on some active events is appended to a log, each event of the log whose
  -- number no active event has is in the new view: what an earlier compaction dropped comes back.
  pub recompaction_restores :
      (active : List Event)
      → plan_truncate active config ≡ some d
      → (view : List Event) × (apply_compaction_view (events ++ c ∷ []) ≡ some view)
        × (filter (not_in (sequences active)) view
            ≡ filter (not_in (sequences active)) (events ++ c ∷ []))
  recompaction_restores active planned = (
    filter (not_in (numbers d.dropped_sequences)) (events ++ c ∷ []),
    view-append_record d c made events,
    keeps_old active planned (events ++ c ∷ []),
  )
