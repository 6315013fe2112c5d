-- ===== src/Sessions/Emission.antt =====
-- What `emit_event` of src/tename/sessions/service.py may return.
use tename.Prelude.{
  ℕ, ◌+◌, ◌≤◌, ◌≡◌, refl, true, false, none, some, arith, Bool-cases, Option-cases, Result-cases,
  Result, ok, err, inl, inr, ltb,
}
use tename.Sessions.Models.{
  Error, validation, not_found, failed_precondition, EventType, Session, Event, is_terminal,
}
use tename.Sessions.Store.{
  Db, find_session, event_row, with_event, find_event_by_id, load_session_for_emit,
}
use tename.Sessions.Service.{
  Argument, serializable, unserializable, payload_of, max_payload_bytes, emit_event, append_event,
  encoded_length,
}
use tename.Sessions.Sequence.{IsDense, append_event_lem}

-- The payload can be encoded, in at most 256 KiB.
pub record IsAccepted (payload : Argument) : Type 0 where
  pub bytes : ℕ
  pub encoded : encoded_length payload ≡ ok bytes
  pub fits : bytes ≤ max_payload_bytes

-- Everything that `emit_event` may return: it has no RuntimeError.
pub data Outcome (db : Db) (now session_id event_id : ℕ) (event_type : EventType)
    (payload : Argument) : Result Error (Db × Event) → Type 0 where
  refused :
      ¬ IsAccepted payload → Outcome db now session_id event_id event_type payload (err validation)
  replayed :
      (e : Event)
      → IsAccepted payload
      → find_event_by_id session_id event_id db ≡ some e
      → Outcome db now session_id event_id event_type payload (ok (db, e))
  unknown :
      IsAccepted payload
      → find_event_by_id session_id event_id db ≡ none
      → find_session session_id db ≡ none
      → Outcome db now session_id event_id event_type payload (err not_found)
  over :
      (s : Session)
      → IsAccepted payload
      → find_event_by_id session_id event_id db ≡ none
      → find_session session_id db ≡ some s
      → is_terminal s.status ≡ true
      → Outcome db now session_id event_id event_type payload (err failed_precondition)
  appended :
      (s : Session) (e : Event)
      → IsAccepted payload
      → find_event_by_id session_id event_id db ≡ none
      → find_session session_id db ≡ some s
      → is_terminal s.status ≡ false
      → e ≡ event_row now session_id event_id (s.last_sequence + 1) event_type (payload_of payload)
      → Outcome db now session_id event_id event_type payload (ok (with_event now e db, e))

-- Encoding fails in one way.
encoded_length_err :
    (payload : Argument) (e : Error) → encoded_length payload ≡ err e → e ≡ validation
unfolding encoded_length
encoded_length_err unserializable e h = cc
encoded_length_err (serializable p) e h = cc

not_both :
    (payload : Argument) {n : ℕ} {e : Error}
    → encoded_length payload ≡ ok n
    → encoded_length payload ≡ err e
    → ⊥
not_both payload h k = cc

encoded_ok :
    (payload : Argument) {m n : ℕ}
    → encoded_length payload ≡ ok m
    → encoded_length payload ≡ ok n
    → n ≡ m
encoded_ok payload h k = cc

not_big : {n : ℕ} → ltb max_payload_bytes n ≡ false → n ≤ max_payload_bytes
not_big h = ground arith

too_big : {m n : ℕ} → n ≡ m → n ≤ max_payload_bytes → ltb max_payload_bytes m ≡ true → ⊥
too_big e h k = ground arith

module _ (now session_id event_id : ℕ) (event_type : EventType) (payload : Argument) (db : Db)
    (dense : IsDense db) where
  append_event-Outcome :
      IsAccepted payload
      → find_event_by_id session_id event_id db ≡ none
      → Outcome db now session_id event_id event_type payload
          (append_event now session_id event_id event_type (payload_of payload) db)
  append_event-Outcome small fresh = elim (Option-cases (find_session session_id db)) [
    | inl absent ↦
        unfold append_event load_session_for_emit in rw absent (unknown small fresh absent)
    | inr (s, found) ↦ elim (Bool-cases (is_terminal s.status)) [
      | inl ended ↦
          unfold append_event load_session_for_emit in
          rw found (rw ended (over s small fresh found ended))
      | inr live ↦
          rw
            (append_event_lem now session_id event_id event_type (payload_of payload) db dense found
              fresh live)
            (appended s _ small fresh found live refl)
    ]
  ]

  -- On tables whose logs are dense, `emit_event` refuses exactly the payloads that cannot be encoded
  -- in 256 KiB; of the others it returns the stored event of the id, if there is one, and otherwise
  -- fails on an unknown or ended session, or appends the event with the next number. Its
  -- RuntimeError does not occur.
  pub emit_event-Outcome :
      Outcome db now session_id event_id event_type payload
        (emit_event now session_id event_id event_type payload db)
  emit_event-Outcome = elim (Result-cases (encoded_length payload)) [
    | inr (e, bad) ↦
        unfold emit_event in
        rw bad
          (rw (encoded_length_err payload e bad) (refused (λ a. not_both payload a.encoded bad)))
    | inl (bytes, good) ↦ elim (Bool-cases (ltb max_payload_bytes bytes)) [
      | inl big ↦
          unfold emit_event in
          rw good (rw big (refused (λ a. too_big (encoded_ok payload good a.encoded) a.fits big)))
      | inr small ↦
          let accepted : IsAccepted payload = record {
            bytes = bytes;
            encoded = good;
            fits = not_big small;
          } in
          elim (Option-cases (find_event_by_id session_id event_id db)) [
            | inl fresh ↦
                unfold emit_event in
                rw good (rw (small, fresh) (append_event-Outcome accepted fresh))
            | inr (e, old) ↦
                unfold emit_event in rw good (rw (small, old) (replayed e accepted old))
          ]
    ]
  ]
