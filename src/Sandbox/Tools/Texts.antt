-- ===== src/Sandbox/Tools/Texts.antt =====
-- The operations of Python's `str` that src/tename/sandbox/tools uses, on the characters of a text.
use Prim.Native.Char.{Char}
use text.Mathlib.TextEquality.{Char-path}
use tename.Prelude.{
  ℕ, zero, suc, ◌+◌, ◌-◌, ◌≡◌, refl, ap, Bool, true, false, Option, none, some, String, code, ◌==◌,
  if◌then◌else◌, Bool-cases, ==_iff, inl, inr,
}

-- `s + t`
abbrev pub join : String → String → String
join String.[] t = t
join (String.◌∷◌ c s) t = String.◌∷◌ c (join s t)

abbrev pub size : String → ℕ
size String.[] = 0
size (String.◌∷◌ c s) = suc (size s)

-- s[:n]
abbrev pub first_characters : ℕ → String → String
first_characters zero s = String.[]
first_characters (suc n) String.[] = String.[]
first_characters (suc n) (String.◌∷◌ c s) = String.◌∷◌ c (first_characters n s)

-- What follows a prefix.
unfoldable pub drop_prefix : String → String → Option String
drop_prefix String.[] s = some s
drop_prefix (String.◌∷◌ p ps) String.[] = none
drop_prefix (String.◌∷◌ p ps) (String.◌∷◌ c s) =
    let rest = drop_prefix ps s in if code p == code c then rest else none

abbrev pub is_some {ℓ} : {A : Type ℓ} → Option A → Bool
is_some none = false
is_some (some a) = true

-- The matches of a text that is not empty: after one, its other characters are skipped.
unfoldable pub count_from : (old : String) → (skip : ℕ) → String → ℕ
count_from old skip String.[] = 0
count_from old (suc n) (String.◌∷◌ c s) = count_from old n s
count_from old zero (String.◌∷◌ c s) =
    let matched = count_from old (size old - 1) s in
    let other = count_from old 0 s in
    if is_some (drop_prefix old (String.◌∷◌ c s)) then matched + 1 else other

-- s.count(old): the empty text matches at every place
unfoldable pub count : (old s : String) → ℕ
count String.[] s = size s + 1
count (String.◌∷◌ o os) s = count_from (String.◌∷◌ o os) 0 s

-- s.replace(old, new, 1)
unfoldable pub replace_first : (old new s : String) → String
replace_first old new String.[] = if is_some (drop_prefix old String.[]) then new else String.[]
replace_first old new (String.◌∷◌ c s) =
    let later = replace_first old new s in
    elim (drop_prefix old (String.◌∷◌ c s)) [
      | some rest ↦ join new rest
      | none ↦ String.◌∷◌ c later
    ]

unfoldable pub replace_from : (old new : String) → (skip : ℕ) → String → String
replace_from old new skip String.[] = String.[]
replace_from old new (suc n) (String.◌∷◌ c s) = replace_from old new n s
replace_from old new zero (String.◌∷◌ c s) =
    let matched = replace_from old new (size old - 1) s in
    let other = replace_from old new 0 s in
    if is_some (drop_prefix old (String.◌∷◌ c s)) then join new matched else String.◌∷◌ c other

unfoldable pub weave : (new s : String) → String
weave new String.[] = new
weave new (String.◌∷◌ c s) = join new (String.◌∷◌ c (weave new s))

-- s.replace(old, new)
unfoldable pub replace_all : (old new s : String) → String
replace_all String.[] new s = weave new s
replace_all (String.◌∷◌ o os) new s = replace_from (String.◌∷◌ o os) new 0 s

abbrev is_slash : ℕ → Bool
is_slash n = n == 47

-- path.rpartition("/"), if there is a "/"
abbrev cut_at : Bool → String → Option (String × String)
cut_at true s = some (String.[], s)
cut_at false s = none

unfoldable pub split_last : String → Option (String × String)
split_last String.[] = none
split_last (String.◌∷◌ c s) = elim (split_last s) [
  | some r ↦ some (String.◌∷◌ c r.0, r.1)
  | none ↦ cut_at (is_slash (code c)) s
]

unfoldable pub starts_with_slash : String → Bool
starts_with_slash String.[] = false
starts_with_slash (String.◌∷◌ c s) = is_slash (code c)

unfoldable pub ends_with_slash : String → Bool
ends_with_slash String.[] = false
ends_with_slash (String.◌∷◌ c String.[]) = is_slash (code c)
ends_with_slash (String.◌∷◌ c (String.◌∷◌ d s)) = ends_with_slash (String.◌∷◌ d s)

-- What is left after a prefix, put behind it, is the text.
pub drop_prefix-join : (old s rest : String) → drop_prefix old s ≡ some rest → s ≡ join old rest
unfolding drop_prefix
drop_prefix-join String.[] s rest e = cc e
drop_prefix-join (String.◌∷◌ p ps) String.[] rest e = cc e
drop_prefix-join (String.◌∷◌ p ps) (String.◌∷◌ c s) rest e = elim (Bool-cases (code p == code c)) [
  | inl same ↦
      let found : drop_prefix ps s ≡ some rest = rw same at e in
      let heads : p ≡ c = Char-path p c ((==_iff (code p) (code c)).0 same) in
      rw (heads, drop_prefix-join ps s rest found) refl
  | inr other ↦ cc (rw other at e)
]

-- The replacement of the first match: the text around a match is kept.
pub data Edited (old new s : String) : String → Type 0 where
  edited :
      (before after : String)
      → s ≡ join before (join old after)
      → Edited old new s (join before (join new after))

pub keep_char :
    {old new s t : String} (c : Char)
    → Edited old new s t
    → Edited old new (String.◌∷◌ c s) (String.◌∷◌ c t)
keep_char c (edited before after e) = edited (String.◌∷◌ c before) after (ap (String.◌∷◌ c) e)
