-- ===== src/Harness/Merging.antt =====
-- `_deep_merge` of src/tename/harness/profiles.py and what it comes to under each name.
use tename.Prelude.{
  ◌≡◌, refl, ap, ◌∙◌, sym, subst, Option, none, some, String, str_eq, eq_iff, Bool-cases, inl, inr,
}
use tename.Json.{Json, Fields, null, bool, int, float, str, arr, obj, end, field, get, put, get-put}

-- _deep_merge: the child's fields one after the other
unfoldable mutual
  pub deep_merge : Fields → Fields → Fields
  deep_merge merged end = merged
  deep_merge merged (field key child_value rest) =
      deep_merge (put key (merge_value (get key merged) child_value) merged) rest

  pub merge_value : Option Json → Json → Json
  merge_value (some (obj p)) (obj c) = obj (deep_merge p c)
  merge_value _ child_value = child_value

-- No name twice, as in a mapping, nor in the mappings that are its values.
unfoldable mutual
  pub IsMapping : Fields → Type 0
  IsMapping end = Unit
  IsMapping (field k v rest) = (get k rest ≡ none) × IsMappingValue v × IsMapping rest

  pub IsMappingValue : Json → Type 0
  IsMappingValue (obj c) = IsMapping c
  IsMappingValue other = Unit

abbrev merged_option : Option Json → Option Json → Option Json
merged_option parent_value none = parent_value
merged_option parent_value (some v) = some (merge_value parent_value v)

-- A merge has under each name the child's value, merged into the parent's if both are mappings, and
-- the parent's value where the child has none.
pub get-deep_merge :
    (key : String) (parent child_fields : Fields)
    → IsMapping child_fields
    → get key (deep_merge parent child_fields)
      ≡ merged_option (get key parent) (get key child_fields)
unfolding deep_merge get IsMapping
get-deep_merge key parent end dict = refl
get-deep_merge key parent (field k v rest) dict =
    let merged = merge_value (get k parent) v in
    get-deep_merge key (put k merged parent) rest dict.2 ∙ (elim (Bool-cases (str_eq k key)) [
      | inl same ↦
          let name : k ≡ key = (eq_iff k key).0 same in
          let missing : get key rest ≡ none = subst (λ n. get n rest ≡ none) name dict.0 in
          rw missing (
            rw (get-put k key merged parent)
              (rw same (ap (λ n. some (merge_value (get n parent) v)) name)))
      | inr other ↦ rw (get-put k key merged parent) (rw other refl)
    ])

abbrev pub IsNoMapping : Option Json → Type 0
IsNoMapping (some (obj p)) = ⊥
IsNoMapping other = Unit

-- Not two mappings.
abbrev pub AreApart : Option Json → Json → Type 0
AreApart parent_value (obj c) = IsNoMapping parent_value
AreApart parent_value child_value = Unit

-- What an override comes to: under each name the parent's value, if the child has none; else the
-- override of the two, if both are mappings; and else the child's value.
mutual
  pub data IsMerge : Fields → Fields → Fields → Type 0 where
    merges :
        {parent child_fields merged : Fields}
        → ((key : String) → IsMergeAt (get key parent) (get key child_fields) (get key merged))
        → IsMerge parent child_fields merged

  pub data IsMergeAt : Option Json → Option Json → Option Json → Type 0 where
    inherited : {o : Option Json} → IsMergeAt o none o
    overrides : {o : Option Json} {v : Json} → AreApart o v → IsMergeAt o (some v) (some v)
    nested :
        {p c m : Fields} → IsMerge p c m → IsMergeAt (some (obj p)) (some (obj c)) (some (obj m))

merge_value_apart : (o : Option Json) (v : Json) → AreApart o v → merge_value o v ≡ v
unfolding deep_merge
merge_value_apart none v apart = refl
merge_value_apart (some null) v apart = refl
merge_value_apart (some (bool b)) v apart = refl
merge_value_apart (some (int n)) v apart = refl
merge_value_apart (some (float t)) v apart = refl
merge_value_apart (some (str t)) v apart = refl
merge_value_apart (some (arr l)) v apart = refl
merge_value_apart (some (obj p)) null apart = refl
merge_value_apart (some (obj p)) (bool b) apart = refl
merge_value_apart (some (obj p)) (int n) apart = refl
merge_value_apart (some (obj p)) (float t) apart = refl
merge_value_apart (some (obj p)) (str t) apart = refl
merge_value_apart (some (obj p)) (arr l) apart = refl
merge_value_apart (some (obj p)) (obj c) apart = absurd apart

replaced :
    (o : Option Json) (v : Json) → AreApart o v → IsMergeAt o (some v) (some (merge_value o v))
replaced o v apart =
    subst (λ m. IsMergeAt o (some v) (some m)) (sym (merge_value_apart o v apart)) (overrides apart)

mutual
  unfolding deep_merge IsMapping get

  merge_value-IsMergeAt :
      (v : Json) (o : Option Json)
      → IsMappingValue v
      → IsMergeAt o (some v) (some (merge_value o v))
  merge_value-IsMergeAt null o dict = replaced o null tt
  merge_value-IsMergeAt (bool b) o dict = replaced o (bool b) tt
  merge_value-IsMergeAt (int n) o dict = replaced o (int n) tt
  merge_value-IsMergeAt (float t) o dict = replaced o (float t) tt
  merge_value-IsMergeAt (str t) o dict = replaced o (str t) tt
  merge_value-IsMergeAt (arr l) o dict = replaced o (arr l) tt
  merge_value-IsMergeAt (obj c) none dict = replaced none (obj c) tt
  merge_value-IsMergeAt (obj c) (some null) dict = replaced (some null) (obj c) tt
  merge_value-IsMergeAt (obj c) (some (bool b)) dict = replaced (some (bool b)) (obj c) tt
  merge_value-IsMergeAt (obj c) (some (int n)) dict = replaced (some (int n)) (obj c) tt
  merge_value-IsMergeAt (obj c) (some (float t)) dict = replaced (some (float t)) (obj c) tt
  merge_value-IsMergeAt (obj c) (some (str t)) dict = replaced (some (str t)) (obj c) tt
  merge_value-IsMergeAt (obj c) (some (arr l)) dict = replaced (some (arr l)) (obj c) tt
  merge_value-IsMergeAt (obj c) (some (obj p)) dict = nested (
      merges (λ key.
        subst (λ m. IsMergeAt (get key p) (get key c) m) (sym (get-deep_merge key p c dict))
          (merged_option-IsMergeAt c key (get key p) dict)))

  merged_option-IsMergeAt :
      (c : Fields) (key : String) (o : Option Json)
      → IsMapping c
      → IsMergeAt o (get key c) (merged_option o (get key c))
  merged_option-IsMergeAt end key o dict = inherited
  merged_option-IsMergeAt (field k v rest) key o dict = elim (Bool-cases (str_eq k key)) [
    | inl same ↦ rw same (merge_value-IsMergeAt v o dict.1)
    | inr other ↦ rw other (merged_option-IsMergeAt rest key o dict.2)
  ]

pub IsMerge-deep_merge :
    (parent child_fields : Fields)
    → IsMapping child_fields
    → IsMerge parent child_fields (deep_merge parent child_fields)
IsMerge-deep_merge p c dict = merges (λ key.
    subst (λ m. IsMergeAt (get key p) (get key c) m) (sym (get-deep_merge key p c dict))
      (merged_option-IsMergeAt c key (get key p) dict))
