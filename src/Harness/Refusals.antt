-- ===== src/Harness/Refusals.antt =====
-- How the resolution of `extends` in src/tename/harness/profiles.py fails.
use tename.Prelude.{
  ℕ, zero, suc, ◌+◌, ◌≤◌, ◌≡◌, refl, subst, true, Option, none, some, List, [], ◌∷◌, ◌++◌, String,
  str_eq, Result, ok, err, leb, any, length, length-append, arith, Bool-cases, inl, inr, bind_err,
}
use tename.Json.{Json, Fields, null, bool, int, float, str, arr, obj, get}
use tename.Harness.Inheritance.{
  ProfileError, cycle, too_deep, validation, extend_with, visits, resolve, load_raw,
}

-- Neither missing nor a name.
abbrev pub IsOdd : Json → Type 0
IsOdd null = ⊥
IsOdd (str name) = ⊥
IsOdd other = Unit

module _ (read : String → Result ProfileError Fields) where
  -- What is wrong with a profile that is reached through those that are visited, or with one above it.
  pub data Fails : List String → String → ProfileError → Type 0 where
    repeated :
        {visited : List String} {name : String}
        → any (λ n. str_eq n name) visited ≡ true
        → Fails visited name cycle
    deep :
        {visited : List String} {name : String} → 16 ≤ length visited → Fails visited name too_deep
    unread :
        {visited : List String} {name : String} {e : ProfileError}
        → read name ≡ err e
        → Fails visited name e
    odd :
        {visited : List String} {name : String} {fields : Fields} {v : Json}
        → read name ≡ ok fields
        → get "extends" fields ≡ some v
        → IsOdd v
        → Fails visited name validation
    above :
        {visited : List String} {name parent_name : String} {fields : Fields} {e : ProfileError}
        → read name ≡ ok fields
        → get "extends" fields ≡ some (str parent_name)
        → Fails (visited ++ name ∷ []) parent_name e
        → Fails visited name e

  odd-Fails :
      (visited : List String) (name : String) (fields : Fields) (v : Json) (e : ProfileError)
      → read name ≡ ok fields
      → get "extends" fields ≡ some v
      → IsOdd v
      → validation ≡ e
      → Fails visited name e
  odd-Fails visited name fields v e found extends_it strange same =
      subst (Fails visited name) same (odd found extends_it strange)

  extend-Fails :
      (visited : List String) (name : String) (fields : Fields) (o : Option Json) (e : ProfileError)
      (parent : String → Result ProfileError Fields)
      → read name ≡ ok fields
      → get "extends" fields ≡ o
      → ((n : String) → parent n ≡ err e → Fails (visited ++ name ∷ []) n e)
      → extend_with read fields o parent ≡ err e
      → Fails visited name e
  extend-Fails visited name fields none e parent found extends_it fails h = cc
  extend-Fails visited name fields (some null) e parent found extends_it fails h = cc
  extend-Fails visited name fields (some (str n)) e parent found extends_it fails h =
      elim (bind_err (parent n) _ e h) [
        | inl failed ↦ above found extends_it (fails n failed)
        | inr (p, fine, after) ↦ cc
      ]
  extend-Fails visited name fields (some (bool b)) e parent found extends_it fails h =
      odd-Fails visited name fields (bool b) e found extends_it tt (cc h)
  extend-Fails visited name fields (some (int n)) e parent found extends_it fails h =
      odd-Fails visited name fields (int n) e found extends_it tt (cc h)
  extend-Fails visited name fields (some (float t)) e parent found extends_it fails h =
      odd-Fails visited name fields (float t) e found extends_it tt (cc h)
  extend-Fails visited name fields (some (arr l)) e parent found extends_it fails h =
      odd-Fails visited name fields (arr l) e found extends_it tt (cc h)
  extend-Fails visited name fields (some (obj c)) e parent found extends_it fails h =
      odd-Fails visited name fields (obj c) e found extends_it tt (cc h)

  resolve-Fails :
      (fuel : ℕ) (visited : List String) (name : String) (e : ProfileError)
      → 17 ≤ fuel + length visited
      → length visited ≤ 16
      → resolve read fuel visited name ≡ err e
      → Fails visited name e
  unfolding resolve
  resolve-Fails zero visited name e enough short h = absurd (omega arith)
  resolve-Fails (suc fuel) visited name e enough short h =
      elim (Bool-cases (visits read visited name)) [
        | inl again ↦ subst (Fails visited name) (cc (rw again at h)) (repeated again)
        | inr new ↦ elim (Bool-cases (leb 16 (length visited))) [
          | inl deep_down ↦
              subst (Fails visited name) (cc (rw deep_down at (rw new at h)))
                (deep (ground (arith, deep_down)))
          | inr shallow ↦ elim (bind_err (read name) _ e (rw shallow at (rw new at h))) [
            | inl missing ↦ unread missing
            | inr (fields, found, after) ↦
                extend-Fails visited name fields (get "extends" fields) e
                  (resolve read fuel (visited ++ name ∷ [])) found refl
                  (λ n.
                    resolve-Fails fuel (visited ++ name ∷ []) n e
                      (omega (arith, enough, length-append visited (name ∷ [])))
                      (ground (arith, shallow, length-append visited (name ∷ []))))
                  after
          ]
        ]
      ]

  pub load_raw-Fails :
      (name : String) (e : ProfileError) → load_raw read name ≡ err e → Fails [] name e
  unfolding load_raw
  load_raw-Fails name e h = resolve-Fails 17 [] name e (omega arith) (omega arith) h
