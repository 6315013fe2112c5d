-- ===== src/Harness/Reading.antt =====
-- How src/tename/harness/profiles.py finds the file of a profile and parses it. The file system, the
-- files that ship with the program and yaml.safe_load are parameters.
use tename.Prelude.{
  ◌≡◌, ◌≢◌, refl, subst, Option, none, some, List, [], ◌∷◌, String, Result, ok, err,
}
use tename.Json.{Json, Fields, null, bool, int, float, str, arr, obj, end}
use tename.Harness.Merging.{IsMapping}
use tename.Harness.Inheritance.{ProfileError, not_found, validation, out_of_fuel}

pub record Library : Type 0 where
  -- the text of <path>/<name>.yaml, if it is a file
  pub file_text : (path name : String) → Option String
  -- _bundled_text
  pub bundled_text : (name : String) → Option String
  -- none for a YAMLError
  pub safe_load : (text : String) → Option Json
  -- no key twice in a mapping
  pub safe_load-IsMapping :
      (text : String) (d : Fields) → safe_load text ≡ some (obj d) → IsMapping d

module _ (lib : Library) where
  abbrev parsed_mapping : Option Json → Result ProfileError Fields
  parsed_mapping none = err validation
  parsed_mapping (some null) = ok end
  parsed_mapping (some (obj fields)) = ok fields
  parsed_mapping (some other) = err validation

  -- _parse_yaml
  unfoldable pub parse_yaml : String → Result ProfileError Fields
  parse_yaml text = parsed_mapping (lib.safe_load text)

  abbrev bundled : Option String → Result ProfileError Fields
  bundled none = err not_found
  bundled (some text) = parse_yaml text

  abbrev first_hit : Option String → Result ProfileError Fields → Result ProfileError Fields
  first_hit none rest = rest
  first_hit (some text) rest = parse_yaml text

  -- _read: the search paths in order, and then the bundled profiles
  unfoldable pub read_profile : (search_paths : List String) → String → Result ProfileError Fields
  read_profile [] name = bundled (lib.bundled_text name)
  read_profile (path ∷ rest) name = first_hit (lib.file_text path name) (read_profile rest name)

  parsed_mapping-IsMapping :
      (text : String) (o : Option Json) (d : Fields)
      → lib.safe_load text ≡ o
      → parsed_mapping o ≡ ok d
      → IsMapping d
  unfolding IsMapping
  parsed_mapping-IsMapping text none d loaded h = absurd (cc h)
  parsed_mapping-IsMapping text (some null) d loaded h =
      let same : end ≡ d = cc h in subst IsMapping same tt
  parsed_mapping-IsMapping text (some (obj fields)) d loaded h =
      let same : fields ≡ d = cc h in
      subst IsMapping same (lib.safe_load-IsMapping text fields loaded)
  parsed_mapping-IsMapping text (some (bool b)) d loaded h = absurd (cc h)
  parsed_mapping-IsMapping text (some (int n)) d loaded h = absurd (cc h)
  parsed_mapping-IsMapping text (some (float t)) d loaded h = absurd (cc h)
  parsed_mapping-IsMapping text (some (str t)) d loaded h = absurd (cc h)
  parsed_mapping-IsMapping text (some (arr items)) d loaded h = absurd (cc h)

  parse_yaml-IsMapping : (text : String) (d : Fields) → parse_yaml text ≡ ok d → IsMapping d
  unfolding parse_yaml
  parse_yaml-IsMapping text d h = parsed_mapping-IsMapping text (lib.safe_load text) d refl h

  bundled-IsMapping : (o : Option String) (d : Fields) → bundled o ≡ ok d → IsMapping d
  bundled-IsMapping none d h = absurd (cc h)
  bundled-IsMapping (some text) d h = parse_yaml-IsMapping text d h

  first_hit-IsMapping :
      (o : Option String) (rest : Result ProfileError Fields) (d : Fields)
      → (rest ≡ ok d → IsMapping d)
      → first_hit o rest ≡ ok d
      → IsMapping d
  first_hit-IsMapping none rest d later h = later h
  first_hit-IsMapping (some text) rest d later h = parse_yaml-IsMapping text d h

  pub read_profile-IsMapping :
      (search_paths : List String) (name : String) (d : Fields)
      → read_profile search_paths name ≡ ok d
      → IsMapping d
  unfolding read_profile
  read_profile-IsMapping [] name d h = bundled-IsMapping (lib.bundled_text name) d h
  read_profile-IsMapping (path ∷ rest) name d h =
      first_hit-IsMapping (lib.file_text path name) (read_profile rest name) d
        (read_profile-IsMapping rest name d) h

  mapping_ends : (o : Option Json) → parsed_mapping o ≢ err out_of_fuel
  mapping_ends none h = cc h
  mapping_ends (some null) h = cc h
  mapping_ends (some (obj fields)) h = cc h
  mapping_ends (some (bool b)) h = cc h
  mapping_ends (some (int n)) h = cc h
  mapping_ends (some (float t)) h = cc h
  mapping_ends (some (str t)) h = cc h
  mapping_ends (some (arr items)) h = cc h

  parse_ends : (text : String) → parse_yaml text ≢ err out_of_fuel
  unfolding parse_yaml
  parse_ends text = mapping_ends (lib.safe_load text)

  bundled_ends : (o : Option String) → bundled o ≢ err out_of_fuel
  bundled_ends none h = cc h
  bundled_ends (some text) h = parse_ends text h

  first_ends :
      (o : Option String) (rest : Result ProfileError Fields)
      → rest ≢ err out_of_fuel
      → first_hit o rest ≢ err out_of_fuel
  first_ends none rest ends = ends
  first_ends (some text) rest ends = parse_ends text

  pub read_ends :
      (search_paths : List String) (name : String)
      → read_profile search_paths name ≢ err out_of_fuel
  unfolding read_profile
  read_ends [] name = bundled_ends (lib.bundled_text name)
  read_ends (path ∷ rest) name =
      first_ends (lib.file_text path name) (read_profile rest name) (read_ends rest name)
