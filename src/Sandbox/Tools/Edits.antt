-- ===== src/Sandbox/Tools/Edits.antt =====
-- What a successful file_edit did to the file: it replaced one match and left the rest.
use Prim.Native.Char.{Char}
use tename.Prelude.{◌≤◌, ◌≡◌, refl, ap, some, String, Option-cases, inl, inr, arith, subst}
use tename.Sandbox.Tools.Texts.{
  join, drop_prefix, count_from, count, replace_first, drop_prefix-join, Edited, edited, keep_char,
}

join_nil : (s : String) → join s String.[] ≡ s
join_nil String.[] = refl
join_nil (String.◌∷◌ c s) = ap (String.◌∷◌ c) (join_nil s)

-- A match at the front.
front : (old new s rest : String) → drop_prefix old s ≡ some rest → Edited old new s (join new rest)
front old new s rest e = edited String.[] rest (drop_prefix-join old s rest e)

replace_first-some :
    (o : Char) (os new s : String)
    → 1 ≤ count_from (String.◌∷◌ o os) 0 s
    → Edited (String.◌∷◌ o os) new s (replace_first (String.◌∷◌ o os) new s)
unfolding count_from replace_first
replace_first-some o os new String.[] found = absurd (omega (arith, found))
replace_first-some o os new (String.◌∷◌ d s) found =
    elim (Option-cases (drop_prefix (String.◌∷◌ o os) (String.◌∷◌ d s))) [
      | inl missed ↦
          let later : 1 ≤ count_from (String.◌∷◌ o os) 0 s = rw missed at found in
          rw (replace_first, missed) (keep_char d (replace_first-some o os new s later))
      | inr (rest, e) ↦ rw (replace_first, e) (front (String.◌∷◌ o os) new (String.◌∷◌ d s) rest e)
    ]

-- The empty text matches at the front.
replace_first-nil : (new s : String) → Edited String.[] new s (replace_first String.[] new s)
unfolding replace_first drop_prefix
replace_first-nil new String.[] =
    subst (Edited String.[] new String.[]) (join_nil new) (edited String.[] String.[] refl)
replace_first-nil new (String.◌∷◌ c s) = edited String.[] (String.◌∷◌ c s) refl

pub replace_first-Edited :
    (old new s : String) → 1 ≤ count old s → Edited old new s (replace_first old new s)
unfolding count
replace_first-Edited String.[] new s found = replace_first-nil new s
replace_first-Edited (String.◌∷◌ o os) new s found = replace_first-some o os new s found
