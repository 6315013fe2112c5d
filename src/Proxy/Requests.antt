-- ===== src/Proxy/Requests.antt =====
-- What web_search sends.
use tename.Prelude.{
  ℕ, ◌≡◌, ◌≤◌, refl, true, false, Option, none, some, String, arith, Bool-cases, inl, inr,
}
use tename.Json.{ℤ, pos, negsuc, Json, Fields, null, bool, int, float, str, arr, obj, get, is_empty}
use tename.Prelude.Dicts.{lookup}
use tename.Proxy.Registry.{Raw, raises, Credentials}
use tename.Proxy.WebSearch.{
  Converted, number, refused, overflow, Interpreter, int_of, or_five, clamp, tool_answer,
  read_reply, body_of, search_with, search_for, search_query, web_search,
}

clamp_bounds : (n : ℤ) → (1 ≤ clamp n) × (clamp n ≤ 20)
unfolding clamp
clamp_bounds (pos n) = (omega arith, omega arith)
clamp_bounds (negsuc n) = (omega arith, omega arith)

-- No request and an error, no request and an OverflowError, or one request.
pub data Searched (py : Interpreter) (endpoint : String) (input : Fields)
    (credentials : Credentials) : Option (String × Fields) × Raw → Type 0 where
  unsent :
      (message : String) → Searched py endpoint input credentials (none, tool_answer true message)
  overflowed :
      (type_name message : String)
      → Searched py endpoint input credentials (none, raises type_name message)
  sent :
      (query key : String) (n : ℕ) (body : Fields)
      → get "query" input ≡ some (str query)
      → lookup "web_search_api_key" credentials ≡ some key
      → is_empty key ≡ false
      → get "query" body ≡ some (str query)
      → get "api_key" body ≡ some (str key)
      → get "max_results" body ≡ some (int (pos n))
      → (1 ≤ n) × (n ≤ 20)
      → Searched py endpoint input credentials
          (some (endpoint, body), read_reply py (py.post endpoint body))

module _ (py : Interpreter) (endpoint : String) (input : Fields) (credentials : Credentials) where
  with-Searched :
      (query : String) (n : ℤ) (key : Option String)
      → get "query" input ≡ some (str query)
      → lookup "web_search_api_key" credentials ≡ key
      → Searched py endpoint input credentials (search_with py endpoint query n key)
  unfolding get
  with-Searched query n none asked found = unsent _
  with-Searched query n (some key) asked found = elim (Bool-cases (is_empty key)) [
    | inl blank ↦ rw blank (unsent _)
    | inr given ↦ rw given (
        sent query key (clamp n) (body_of py query key n) asked found given refl refl refl
          (clamp_bounds n))
  ]

  for-Searched :
      (query : String) (n : Converted)
      → get "query" input ≡ some (str query)
      → Searched py endpoint input credentials
          (search_for py endpoint query n (lookup "web_search_api_key" credentials))
  for-Searched query (number n) asked =
      with-Searched query n (lookup "web_search_api_key" credentials) asked refl
  for-Searched query refused asked = unsent _
  for-Searched query overflow asked = overflowed _ _

  query-Searched :
      (o : Option Json)
      → get "query" input ≡ o
      → Searched py endpoint input credentials (search_query py endpoint input credentials o)
  query-Searched none asked = unsent _
  query-Searched (some null) asked = unsent _
  query-Searched (some (bool b)) asked = unsent _
  query-Searched (some (int n)) asked = unsent _
  query-Searched (some (float t)) asked = unsent _
  query-Searched (some (arr l)) asked = unsent _
  query-Searched (some (obj d)) asked = unsent _
  query-Searched (some (str query)) asked = elim (Bool-cases (is_empty (py.strip query))) [
    | inl blank ↦ rw blank (unsent _)
    | inr given ↦
        rw given (for-Searched query (int_of py (or_five (get "max_results" input))) asked)
  ]

  -- A web search sends at most one request. If it sends none it answers with an error or raises. If it
  -- sends one, to the endpoint, the body has the query of the input, the key of the credentials, which is
  -- not empty, and between 1 and 20 as the number of results, and the answer is read from the reply.
  pub web_search_lem :
      Searched py endpoint input credentials (web_search py endpoint input credentials)
  unfolding web_search
  web_search_lem = query-Searched (get "query" input) refl
