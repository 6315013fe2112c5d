-- ===== src/Harness/Quirks.antt =====
-- The quirks of a profile, of src/tename/harness/profiles.py, and their rules.
use tename.Prelude.{
  ℕ, ◌≡◌, ◌<◌, ◌↔◌, refl, Bool, true, false, not, ◌&&◌, Option, List, [], ◌∷◌, String, leb, arith,
}
use tename.Json.{is_empty}

-- A date is the number of its day.
pub record Quirk : Type 0 where
  pub name : String
  pub added : ℕ
  pub review_date : ℕ
  pub description : String
  pub mitigation : String
  pub enabled : Bool
  pub notes : Option String

abbrev review_after_added : Quirk → Bool
review_after_added q = not (leb q.review_date q.added)

abbrev pub quirk_fields : Quirk → Bool
quirk_fields q =
    not (is_empty q.name)
    && (not (is_empty q.description) && (not (is_empty q.mitigation) && review_after_added q))

unfoldable pub quirks_fields : List Quirk → Bool
quirks_fields [] = true
quirks_fields (q ∷ rest) = quirk_fields q && quirks_fields rest

abbrev pub QuirksOk : List Quirk → Type 0
QuirksOk [] = Unit
QuirksOk (q ∷ rest) =
    (is_empty q.name ≡ false)
    × (is_empty q.description ≡ false)
    × (is_empty q.mitigation ≡ false)
    × (q.added < q.review_date)
    × QuirksOk rest

pub quirks_iff : (qs : List Quirk) → (quirks_fields qs ≡ true) ↔ QuirksOk qs
unfolding quirks_fields
quirks_iff [] = (λ _. tt, λ _. refl)
quirks_iff (q ∷ rest) = ground (arith, quirks_iff rest)
