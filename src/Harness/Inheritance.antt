-- ===== src/Harness/Inheritance.antt =====
-- How src/tename/harness/profiles.py resolves `extends`. A YAML mapping stands as the fields of an
-- object, and `read`, which finds the file of a profile and parses it, is a parameter.
use tename.Prelude.{
  ℕ, zero, suc, ◌+◌, ◌≤◌, ◌≡◌, ◌≢◌, refl, subst, Bool, Option, none, some, List, [], ◌∷◌, ◌++◌,
  String, str_eq, eq_iff, Result, ok, err, ◌>>=◌, if◌then◌else◌, leb, any, length, length-append,
  arith, Bool-cases, inl, inr, ◌⊎◌, bind_ok, bind_err,
}
use tename.Harness.Merging.{deep_merge, IsMapping, IsMerge, IsMerge-deep_merge}
use tename.Json.{Json, Fields, null, bool, int, float, str, arr, obj, end, field, get}

-- ProfileNotFoundError, ProfileInheritanceError and ProfileValidationError; and the end of the fuel,
-- which the code does not have.
pub data ProfileError : Type 0 where
  not_found cycle too_deep validation out_of_fuel : ProfileError

abbrev pub max_extends_depth : ℕ
max_extends_depth = 16

-- fields.pop("extends"): a mapping has at most one field of a name
unfoldable pub pop_extends : Fields → Fields
pop_extends end = end
pop_extends (field k v rest) =
    let others = pop_extends rest in if str_eq k "extends" then others else field k v others

get-pop_extends :
    (fields : Fields) (k : String) → get k fields ≡ none → get k (pop_extends fields) ≡ none
unfolding get pop_extends
get-pop_extends end k missing = refl
get-pop_extends (field n v rest) k missing =
    ground (arith, eq_iff n k, eq_iff n "extends", get-pop_extends rest k)

pop_extends-IsMapping : (fields : Fields) → IsMapping fields → IsMapping (pop_extends fields)
unfolding pop_extends IsMapping
pop_extends-IsMapping end dict = tt
pop_extends-IsMapping (field k v rest) dict = elim (Bool-cases (str_eq k "extends")) [
  | inl popped ↦ rw popped (pop_extends-IsMapping rest dict.2)
  | inr stays ↦ rw stays (get-pop_extends rest k dict.0, dict.1, pop_extends-IsMapping rest dict.2)
]

module _ (read : String → Result ProfileError Fields) where
  -- The recursive call is the argument `parent`.
  abbrev pub extend_with :
      Fields → Option Json → (String → Result ProfileError Fields) → Result ProfileError Fields
  extend_with fields none parent = ok (pop_extends fields)
  extend_with fields (some null) parent = ok (pop_extends fields)
  extend_with fields (some (str name)) parent =
      parent name >>= λ p. ok (deep_merge p (pop_extends fields))
  extend_with fields (some _) parent = err validation

  abbrev pub visits : List String → String → Bool
  visits visited name = any (λ n. str_eq n name) visited

  -- _resolve
  unfoldable pub resolve : (fuel : ℕ) → List String → String → Result ProfileError Fields
  resolve zero visited name = err out_of_fuel
  resolve (suc fuel) visited name =
      let parent = resolve fuel (visited ++ name ∷ []) in
      if visits visited name
      then err cycle
      else if leb max_extends_depth (length visited)
      then err too_deep
      else (read name >>= λ fields. extend_with fields (get "extends" fields) parent)

  -- `load`, before validation
  unfoldable pub load_raw : String → Result ProfileError Fields
  load_raw name = resolve (suc max_extends_depth) [] name

  -- A profile and what it inherits, without a bound and without a record of visits.
  pub data Inherits : String → Fields → Type 0 where
    root :
        {name : String} {fields : Fields}
        → read name ≡ ok fields
        → (get "extends" fields ≡ none) ⊎ (get "extends" fields ≡ some null)
        → Inherits name (pop_extends fields)
    child :
        {name parent_name : String} {fields parent merged : Fields}
        → read name ≡ ok fields
        → get "extends" fields ≡ some (str parent_name)
        → Inherits parent_name parent
        → IsMerge parent (pop_extends fields) merged
        → Inherits name merged

  extend-Inherits :
      (name : String) (fields d : Fields) (o : Option Json)
      (parent : String → Result ProfileError Fields)
      (mappings : (name : String) (fields : Fields) → read name ≡ ok fields → IsMapping fields)
      → read name ≡ ok fields
      → get "extends" fields ≡ o
      → ((n : String) (p : Fields) → parent n ≡ ok p → Inherits n p)
      → extend_with fields o parent ≡ ok d
      → Inherits name d
  extend-Inherits name fields d none parent mappings found extends_it inherits h =
      subst (Inherits name) (cc h) (root found (inl extends_it))
  extend-Inherits name fields d (some null) parent mappings found extends_it inherits h =
      subst (Inherits name) (cc h) (root found (inr extends_it))
  extend-Inherits name fields d (some (str n)) parent mappings found extends_it inherits h =
      let first = bind_ok (parent n) _ d h in
      subst (Inherits name) (cc first.2) (
        child found extends_it (inherits n first.0 first.1) (
          IsMerge-deep_merge first.0 (pop_extends fields)
            (pop_extends-IsMapping fields (mappings name fields found))))
  extend-Inherits name fields d (some (bool b)) parent mappings found extends_it inherits h = cc
  extend-Inherits name fields d (some (int n)) parent mappings found extends_it inherits h = cc
  extend-Inherits name fields d (some (float t)) parent mappings found extends_it inherits h = cc
  extend-Inherits name fields d (some (arr items)) parent mappings found extends_it inherits h = cc
  extend-Inherits name fields d (some (obj c)) parent mappings found extends_it inherits h = cc

  resolve-Inherits :
      (mappings : (name : String) (fields : Fields) → read name ≡ ok fields → IsMapping fields)
      (fuel : ℕ) (visited : List String) (name : String) (d : Fields)
      → resolve fuel visited name ≡ ok d
      → Inherits name d
  unfolding resolve
  resolve-Inherits mappings zero visited name d h = cc
  resolve-Inherits mappings (suc fuel) visited name d h = elim (Bool-cases (visits visited name)) [
    | inl again ↦ absurd (cc (rw again at h))
    | inr new ↦ elim (Bool-cases (leb max_extends_depth (length visited))) [
      | inl deep ↦ absurd (cc (rw deep at (rw new at h)))
      | inr shallow ↦
          let first = bind_ok (read name) _ d (rw shallow at (rw new at h)) in
          extend-Inherits name first.0 d (get "extends" first.0)
            (resolve fuel (visited ++ name ∷ [])) mappings first.1 refl
            (λ n p found. resolve-Inherits mappings fuel (visited ++ name ∷ []) n p found) first.2
    ]
  ]

  module _ (reads : (name : String) → read name ≢ err out_of_fuel) where
    extend_fuel :
        (fields : Fields) (o : Option Json) (parent : String → Result ProfileError Fields)
        → ((n : String) → parent n ≢ err out_of_fuel)
        → extend_with fields o parent ≢ err out_of_fuel
    extend_fuel fields none parent enough h = cc
    extend_fuel fields (some null) parent enough h = cc
    extend_fuel fields (some (str n)) parent enough h = elim (bind_err (parent n) _ out_of_fuel h) [
      | inl failed ↦ enough n failed
      | inr (p, fine, after) ↦ cc
    ]
    extend_fuel fields (some (bool b)) parent enough h = cc
    extend_fuel fields (some (int n)) parent enough h = cc
    extend_fuel fields (some (float t)) parent enough h = cc
    extend_fuel fields (some (arr items)) parent enough h = cc
    extend_fuel fields (some (obj c)) parent enough h = cc

    resolve_fuel :
        (fuel : ℕ) (visited : List String) (name : String)
        → 17 ≤ fuel + length visited
        → length visited ≤ 16
        → resolve fuel visited name ≢ err out_of_fuel
    unfolding resolve
    resolve_fuel zero visited name enough short h = absurd (omega arith)
    resolve_fuel (suc fuel) visited name enough short h = elim (Bool-cases (visits visited name)) [
      | inl again ↦ cc (rw again at h)
      | inr new ↦ elim (Bool-cases (leb max_extends_depth (length visited))) [
        | inl deep ↦ cc (rw deep at (rw new at h))
        | inr shallow ↦ elim (bind_err (read name) _ out_of_fuel (rw shallow at (rw new at h))) [
          | inl unread ↦ reads name unread
          | inr (fields, found, after) ↦
              extend_fuel fields (get "extends" fields) (resolve fuel (visited ++ name ∷ []))
                (λ n.
                  resolve_fuel fuel (visited ++ name ∷ []) n
                    (omega (arith, enough, length-append visited (name ∷ [])))
                    (ground (arith, shallow, length-append visited (name ∷ []))))
                after
        ]
      ]
    ]

    -- `load` ends: seventeen levels are enough for it. What it resolves is the profile merged over
    -- what its chain of parents resolves to.
    pub load_raw_lem :
        (mappings : (name : String) (fields : Fields) → read name ≡ ok fields → IsMapping fields)
        (name : String)
        → (load_raw name ≢ err out_of_fuel)
          × ((d : Fields) → load_raw name ≡ ok d → Inherits name d)
    unfolding load_raw
    load_raw_lem mappings name = (
      resolve_fuel 17 [] name (omega arith) (omega arith),
      λ d h. resolve-Inherits mappings 17 [] name d h,
    )
