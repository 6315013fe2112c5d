-- ===== src/Json.antt =====
-- Payload values as Python holds them after `json.loads`, and what the code asks of a `dict`.
-- A float stands for the text that `json.dumps` writes for it.
pub mod Dumps
use Prim.Native.String
use tename.Prelude.{
  ℕ, ◌+◌, ◌≡◌, refl, Bool, true, false, not, ◌||◌, Option, none, some, List, [], ◌∷◌, arith, ◌==◌,
  String, str_eq, eq_iff, if◌then◌else◌,
}

-- `negsuc n` is -(n + 1).
pub data ℤ : Type 0 where
  pos : ℕ → ℤ
  negsuc : ℕ → ℤ

mutual
  pub data Json : Type 0 where
    null : Json
    bool : Bool → Json
    int : ℤ → Json
    float : String → Json
    str : String → Json
    arr : Items → Json
    obj : Fields → Json

  pub data Items : Type 0 where
    nil : Items
    cons : Json → Items → Items

  pub data Fields : Type 0 where
    end : Fields
    field : String → Json → Fields → Fields

-- d.get(key)
unfoldable pub get : String → Fields → Option Json
get key end = none
get key (field k v rest) = if str_eq k key then some v else get key rest

-- d[key] = value: an old key keeps its place, a new one goes to the end
unfoldable pub put : String → Json → Fields → Fields
put key value end = field key value end
put key value (field k v rest) =
    if str_eq k key then field k value rest else field k v (put key value rest)

-- What a key holds after an assignment.
pub get-put :
    (key k : String) (value : Json) (d : Fields)
    → get k (put key value d) ≡ (if str_eq key k then some value else get k d)
unfolding get put
get-put key k value end = refl
get-put key k value (field j w rest) =
    ground (arith, eq_iff key k, eq_iff j key, eq_iff j k, get-put key k value rest)

-- d.get(key, default)
abbrev pub get_default : String → Json → Fields → Json
get_default key default d = elim (get key d) [ none ↦ default | some v ↦ v ]

abbrev pub is_empty : String → Bool
is_empty s = str_eq s ""

-- bool(value)
unfoldable pub truthy : Json → Bool
truthy null = false
truthy (bool b) = b
truthy (int (pos n)) = not (n == 0)
truthy (int (negsuc n)) = true
truthy (float t) = not (str_eq t "0.0" || str_eq t "-0.0")
truthy (str s) = not (is_empty s)
truthy (arr nil) = false
truthy (arr (cons _ _)) = true
truthy (obj end) = false
truthy (obj (field _ _ _)) = true

-- `value if isinstance(value, str) else None`, on `d.get(key)`
abbrev pub as_str : Option Json → Option String
as_str (some (str s)) = some s
as_str _ = none

-- `d.get(key) == text`
abbrev pub is_string : String → Option Json → Bool
is_string t (some (str s)) = str_eq s t
is_string t _ = false
