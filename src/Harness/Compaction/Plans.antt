-- ===== src/Harness/Compaction/Plans.antt =====
-- What `plan_truncate` of src/tename/harness/compaction.py keeps and drops.
use tename.Prelude.{
  ℕ, zero, suc, ◌+◌, ◌-◌, ◌≤◌, ◌<◌, ◌≡◌, refl, ap, Bool, true, not, some, List, [], ◌∷◌, ◌++◌, map,
  arith, Bool-cases, filter, find?, subst, sym, inl, inr, drop, length,
}
use tename.Sessions.Models.{Event, same_type, user_message}
use tename.Harness.Profiles.{ContextConfig}
use tename.Harness.Compaction.{
  CompactionDecision, total_chars, estimate_event_tokens, is_compaction_event, sequence_of,
  first_user_sequence, keeps, keeps_at, filter_index, kept, dropped, decide_on, plan_truncate,
}

-- Each event of the third list is in exactly one of the first two, which keep its order.
pub data Shares : List Event → List Event → List Event → Type 0 where
  nothing : Shares [] [] []
  left :
      {e : Event} {kept_ones gone es : List Event}
      → Shares kept_ones gone es
      → Shares (e ∷ kept_ones) gone (e ∷ es)
  right :
      {e : Event} {kept_ones gone es : List Event}
      → Shares kept_ones gone es
      → Shares kept_ones (e ∷ gone) (e ∷ es)

module _ (test : ℕ → Event → Bool) where
  filter_index-Shares :
      (i : ℕ) (es : List Event)
      → Shares (filter_index test i es) (filter_index (λ j e. not (test j e)) i es) es
  unfolding filter_index
  filter_index-Shares i [] = nothing
  filter_index-Shares i (e ∷ es) = elim (Bool-cases (test i e)) [
    | inl stays ↦ rw stays (left (filter_index-Shares (suc i) es))
    | inr goes ↦ rw goes (right (filter_index-Shares (suc i) es))
  ]

  total_chars-filter_index :
      (i : ℕ) (es : List Event) → total_chars (filter_index test i es) ≤ total_chars es
  unfolding filter_index total_chars
  total_chars-filter_index i [] = omega arith
  total_chars-filter_index i (e ∷ es) = ground (arith, total_chars-filter_index (suc i) es)

  -- A test of events that implies being kept selects the same events from what is kept.
  filter-filter_index :
      (p : Event → Bool) (i : ℕ) (es : List Event)
      → ((j : ℕ) (e : Event) → p e ≡ true → test j e ≡ true)
      → filter p (filter_index test i es) ≡ filter p es
  unfolding filter_index
  filter-filter_index p i [] implies = refl
  filter-filter_index p i (e ∷ es) implies =
      ground (arith, implies i e, filter-filter_index p (suc i) es implies)

  find-filter_index :
      (p : Event → Bool) (i : ℕ) (es : List Event) (e : Event)
      → find? p es ≡ some e
      → ((j : ℕ) → test j e ≡ true)
      → find? p (filter_index test i es) ≡ some e
  unfolding filter_index
  find-filter_index p i [] e found passes = found
  find-filter_index p i (x ∷ xs) e found passes = elim (Bool-cases (p x)) [
    | inl first ↦
        let same : x ≡ e = cc (rw first at found) in
        rw (subst (λ y. test i y ≡ true) (sym same) (passes i)) (rw first (ap some same))
    | inr later ↦ ground (arith, later, find-filter_index p (suc i) xs e (rw later at found) passes)
  ]

  -- From an index on where all is kept, the rest of the list is kept.
  filter_index_all :
      (i : ℕ) (es : List Event)
      → ((j : ℕ) (e : Event) → i ≤ j → test j e ≡ true)
      → filter_index test i es ≡ es
  unfolding filter_index
  filter_index_all i [] all = refl
  filter_index_all i (e ∷ es) all =
      rw (all i e (omega arith))
        (ap (λ l. e ∷ l) (filter_index_all (suc i) es (λ j x h. all j x (omega arith))))

  filter_index-drop :
      (n i : ℕ) (es : List Event)
      → ((j : ℕ) (e : Event) → i + n ≤ j → test j e ≡ true)
      → (front : List Event) × (filter_index test i es ≡ front ++ drop n es)
  unfolding filter_index
  filter_index-drop zero i es all = ([], filter_index_all i es (λ j e h. all j e (omega arith)))
  filter_index-drop (suc n) i [] all = ([], refl)
  filter_index-drop (suc n) i (e ∷ es) all =
      let rest = filter_index-drop n (suc i) es (λ j x h. all j x (omega arith)) in
      elim (Bool-cases (test i e)) [
        | inl stays ↦ (e ∷ rest.0, rw stays (ap (λ l. e ∷ l) rest.1))
        | inr goes ↦ (rest.0, rw goes rest.1)
      ]

module _ (active : List Event) (c : ContextConfig) where
  abbrev tail_start : ℕ
  tail_start = length active - c.keep_last_n_events

  keeps_tail : (j : ℕ) (e : Event) → tail_start ≤ j → keeps_at active c j e ≡ true
  unfolding keeps
  keeps_tail j e h = ground arith

  keeps_compaction :
      (j : ℕ) (e : Event) → is_compaction_event e ≡ true → keeps_at active c j e ≡ true
  unfolding keeps
  keeps_compaction j e h = ground arith

  first_sequence :
      (e : Event)
      → find? (λ x. same_type x.type user_message) active ≡ some e
      → first_user_sequence active ≡ some e.sequence
  unfolding first_user_sequence
  first_sequence e found = rw (found, first_user_sequence)

  keeps_first :
      (e : Event)
      → find? (λ x. same_type x.type user_message) active ≡ some e
      → (j : ℕ) → keeps_at active c j e ≡ true
  unfolding keeps
  keeps_first e found j = ground (arith, first_sequence e found)

  -- A plan keeps the last `keep_last_n_events` events as the end of what it keeps, every compaction
  -- record in its order, and the first user message, if there is one.
  pub kept_lem :
      ((front : List Event) × (kept active c
          ≡ front ++ drop (length active - c.keep_last_n_events) active))
      × (filter is_compaction_event (kept active c) ≡ filter is_compaction_event active)
      × ((e : Event)
          → find? (λ x. same_type x.type user_message) active ≡ some e
          → find? (λ x. same_type x.type user_message) (kept active c) ≡ some e)
  unfolding kept
  kept_lem = (
    filter_index-drop (keeps_at active c) tail_start 0 active
        (λ j e h. keeps_tail j e (omega arith)),
    filter-filter_index (keeps_at active c) is_compaction_event 0 active keeps_compaction,
    λ e found.
        find-filter_index (keeps_at active c) (λ x. same_type x.type user_message) 0 active e found
          (keeps_first e found),
  )

  estimate-kept-le : estimate_event_tokens (kept active c) ≤ estimate_event_tokens active
  unfolding estimate_event_tokens kept
  estimate-kept-le = omega (arith, total_chars-filter_index (keeps_at active c) 0 active)

  kept-Shares : Shares (kept active c) (dropped active c) active
  unfolding kept dropped
  kept-Shares = filter_index-Shares (keeps_at active c) 0 active

  decide_on-some :
      (remaining gone : List Event) (d : CompactionDecision)
      → decide_on active c remaining gone ≡ some d
      → (d.dropped_sequences ≡ map sequence_of gone)
        × (d.kept_sequences ≡ map sequence_of remaining)
        × (0 < length gone)
        × (d.estimated_tokens_before ≡ estimate_event_tokens active)
        × (d.estimated_tokens_after ≡ estimate_event_tokens remaining)
  decide_on-some remaining [] d h = cc
  decide_on-some remaining (e ∷ es) d h = ground arith

  -- A plan lists the numbers of what it drops, which is not empty, and of what it keeps; each active
  -- event is in exactly one of the two, both in the order of the active events; and the estimate does
  -- not grow.
  pub plan_truncate_accounts :
      (d : CompactionDecision)
      → plan_truncate active c ≡ some d
      → (d.dropped_sequences ≡ map sequence_of (dropped active c))
        × (d.kept_sequences ≡ map sequence_of (kept active c))
        × Shares (kept active c) (dropped active c) active
        × (0 < length (dropped active c))
        × (d.estimated_tokens_after ≤ d.estimated_tokens_before)
  unfolding plan_truncate
  plan_truncate_accounts d h =
      let parts = decide_on-some (kept active c) (dropped active c) d h in
      (parts.0, parts.1, kept-Shares, parts.2, omega (arith, parts.3, parts.4, estimate-kept-le))
