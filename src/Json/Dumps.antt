-- ===== src/Json/Dumps.antt =====
-- `json.dumps(value, ensure_ascii=False)` of the standard library, as a list of code points, and
-- the number of bytes of its UTF-8 encoding.
use tename.Prelude.{
  ℕ, zero, suc, ◌+◌, ◌/◌, ◌%◌, ◌≤◌, ◌≡◌, refl, true, false, List, [], ◌∷◌, ◌++◌, arith, ◌==◌, ltb,
  code, String, if◌then◌else◌, length,
}
use tename.Json.{
  ℤ, pos, negsuc, Json, Items, Fields, null, bool, int, float, str, arr, obj, nil, cons, end, field,
}

abbrev pub codes : String → List ℕ
codes String.[] = []
codes (String.◌∷◌ c s) = code c ∷ codes s

abbrev hex_digit : ℕ → ℕ
hex_digit d = if ltb d 10 then d + 48 else d + 87

-- One character inside a string literal.
unfoldable pub escape : ℕ → List ℕ
escape c =
    if c == b'"'
    then 92 ∷ 34 ∷ []
    else if c == 92
    then 92 ∷ 92 ∷ []
    else if c == 10
    then 92 ∷ b'n' ∷ []
    else if c == 13
    then 92 ∷ b'r' ∷ []
    else if c == 9
    then 92 ∷ b't' ∷ []
    else if c == 8
    then 92 ∷ b'b' ∷ []
    else if c == 12
    then 92 ∷ b'f' ∷ []
    else if ltb c 32
    then 92 ∷ b'u' ∷ 48 ∷ 48 ∷ hex_digit (c / 16) ∷ hex_digit (c % 16) ∷ []
    else c ∷ []

unfoldable pub escaped : List ℕ → List ℕ
unfolding escape
escaped [] = []
escaped (c ∷ cs) = escape c ++ escaped cs

unfoldable pub quoted : String → List ℕ
unfolding escaped
quoted s = 34 ∷ (escaped (codes s) ++ 34 ∷ [])

-- The decimal digits of n, in front of the text; a number has at most n + 1 digits.
unfoldable pub digits : ℕ → ℕ → List ℕ → List ℕ
digits zero n after = after
digits (suc fuel) n after =
    let shown = (48 + n % 10) ∷ after in
    let more = digits fuel (n / 10) shown in if ltb n 10 then shown else more

unfoldable pub decimal : ℤ → List ℕ
unfolding digits
decimal (pos n) = digits (n + 1) n []
decimal (negsuc n) = b'-' ∷ digits (n + 2) (n + 1) []

unfoldable mutual
  unfolding quoted decimal

  pub dumps : Json → List ℕ
  dumps null = codes "null"
  dumps (bool true) = codes "true"
  dumps (bool false) = codes "false"
  dumps (int n) = decimal n
  dumps (float t) = codes t
  dumps (str s) = quoted s
  dumps (arr nil) = codes "[]"
  dumps (arr (cons v rest)) = b'[' ∷ (dumps v ++ dumps_items rest)
  dumps (obj end) = codes "{}"
  dumps (obj (field k v rest)) = b'{' ∷ (quoted k ++ (58 ∷ 32 ∷ dumps v) ++ dumps_fields rest)

  pub dumps_items : Items → List ℕ
  dumps_items nil = b']' ∷ []
  dumps_items (cons v rest) = b',' ∷ b' ' ∷ (dumps v ++ dumps_items rest)

  pub dumps_fields : Fields → List ℕ
  dumps_fields end = b'}' ∷ []
  dumps_fields (field k v rest) =
      b',' ∷ b' ' ∷ (quoted k ++ (58 ∷ 32 ∷ dumps v) ++ dumps_fields rest)

-- The bytes of a code point in UTF-8.
abbrev width : ℕ → ℕ
width c = if ltb c 128 then 1 else if ltb c 2048 then 2 else if ltb c 65536 then 3 else 4

-- len(text.encode("utf-8"))
unfoldable pub utf8_length : List ℕ → ℕ
utf8_length [] = 0
utf8_length (c ∷ cs) = width c + utf8_length cs

-- A text has at least as many bytes as characters.
pub length-le-utf8_length : (text : List ℕ) → length text ≤ utf8_length text
unfolding utf8_length
length-le-utf8_length [] = omega arith
length-le-utf8_length (c ∷ cs) = ground (arith, length-le-utf8_length cs)

dumps_example :
    dumps
      (obj (field "a" (arr (cons (int (negsuc 11)) (cons (str "x\"y") nil))) (field "b" null end)))
    ≡ codes "{\"a\": [-12, \"x\\\"y\"], \"b\": null}"
unfolding dumps
dumps_example = refl
