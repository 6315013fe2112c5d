-- ===== src/Sandbox/Contracts.antt =====
-- The schemas of the built-in tools against the tools.
use tename.Prelude.{
  ◌≡◌, refl, Bool, true, false, ◌||◌, Option, none, some, String, str_eq, eq_iff, Result, ok, All,
  Bool-cases, inl, inr, subst, sym, ◌&&◌,
}
use tename.Prelude.Dicts.{lookup}
use tename.Json.{Json, Items, Fields, str, arr, nil, cons, get, truthy, get_default, bool}
use tename.Router.Types.{ToolDef}
use tename.Sandbox.Service.{ToolResult}
use tename.Sandbox.Tools.Texts.{is_some as known}
use tename.Sandbox.Tools.{Container, ToolError, missing}
use tename.Sandbox.Tools.Files.{
  bash_tool, python_tool, file_read_tool, file_write_tool, file_edit_tool, file_list_tool, text_in,
  filled, write_path, edit_fields,
}
use tename.Sandbox.Tools.Builtin.{SandboxToolFn, builtin_tools}
use tename.Sandbox.Schemas.{
  builtin_tool_schemas, bash_tool_def, python_tool_def, file_read_tool_def, file_write_tool_def,
  file_edit_tool_def, file_list_tool_def,
}

abbrev pub lists : Items → String → Bool
lists nil name = false
lists (cons (str t) rest) name = str_eq t name || lists rest name
lists (cons other rest) name = lists rest name

abbrev required_of : Option Json → Items
required_of (some (arr names)) = names
required_of other = nil

-- A field is among those that a schema requires.
abbrev pub is_required : ToolDef → String → Bool
is_required t name = lists (required_of (get "required" t.input_schema)) name

-- An error, with the container as it was.
pub data Refused {S : Type 0} (s : S) : S × Result ToolError ToolResult → Type 0 where
  refused : (r : ToolResult) → r.is_error ≡ true → Refused s (s, ok r)

-- A tool without a field answers with an error and leaves the container.
abbrev Refuses : {S : Type 0} → Container S → SandboxToolFn S → String → Type 0
Refuses {S} c tool name =
    (script : String) (input : Fields) (s : S)
    → get name input ≡ none
    → Refused s (tool c script input s)

-- Where the schema under this name is the one given.
abbrev pub Enforces : {S : Type 0} → Container S → String × ToolDef → Type 0
Enforces {S} c entry =
    (tool : SandboxToolFn S) (name : String)
    → lookup entry.0 builtin_tools ≡ some tool
    → is_required entry.1 name ≡ true
    → Refuses c tool name

or_false : (b : Bool) → (b || false) ≡ true → b ≡ true
or_false true h = refl
or_false false h = h

and-false : (b : Bool) → (b && false) ≡ false
and-false true = refl
and-false false = refl

module _ {S : Type 0} (c : Container S) where
  bash-Refuses : Refuses c (λ c script. bash_tool c) "command"
  unfolding bash_tool
  bash-Refuses script input s absent = rw absent (refused _ refl)

  python-Refuses : Refuses c python_tool "code"
  unfolding python_tool
  python-Refuses script input s absent = rw absent (refused _ refl)

  read-Refuses : Refuses c (λ c script. file_read_tool c) "path"
  unfolding file_read_tool missing
  read-Refuses script input s absent = rw absent (refused _ refl)

  unwritten : (path : Option String) (s : S) → Refused s (write_path c path none s)
  unfolding missing
  unwritten none s = refused _ refl
  unwritten (some path) s = refused _ refl

  write-Refuses :
      (name : String)
      → (str_eq "path" name || (str_eq "content" name || false)) ≡ true
      → Refuses c (λ c script. file_write_tool c) name
  unfolding file_write_tool missing
  write-Refuses name named script input s absent = elim (Bool-cases (str_eq "path" name)) [
    | inl is_path ↦
        let gone : get "path" input ≡ none =
          subst (λ n. get n input ≡ none) (sym ((eq_iff "path" name).0 is_path)) absent in
        rw gone (refused _ refl)
    | inr other ↦
        let same : "content" ≡ name = (eq_iff "content" name).0 (or_false _ (rw other at named)) in
        let gone : get "content" input ≡ none = subst (λ n. get n input ≡ none) (sym same) absent in
        rw gone (unwritten (filled (text_in (get "path" input))) s)
  ]

  unedited :
      (every : Bool) (path old new : Option String) (s : S)
      → (known path && (known old && known new)) ≡ false
      → Refused s (edit_fields c every path old new s)
  unfolding missing
  unedited every none old new s absent = refused _ refl
  unedited every (some path) none new s absent = refused _ refl
  unedited every (some path) (some old) none s absent = refused _ refl
  unedited every (some path) (some old) (some new) s absent = cc absent

  absent_field :
      (name : String)
      → (str_eq "path" name || (str_eq "old_str" name || (str_eq "new_str" name || false))) ≡ true
      → (input : Fields) → get name input ≡ none
      → (known (filled (text_in (get "path" input)))
          && (known (text_in (get "old_str" input)) && known (text_in (get "new_str" input))))
        ≡ false
  absent_field name named input absent = elim (Bool-cases (str_eq "path" name)) [
    | inl is_path ↦
        let gone : get "path" input ≡ none =
          subst (λ n. get n input ≡ none) (sym ((eq_iff "path" name).0 is_path)) absent in
        rw gone refl
    | inr other ↦ elim (Bool-cases (str_eq "old_str" name)) [
      | inl is_old ↦
          let gone : get "old_str" input ≡ none =
            subst (λ n. get n input ≡ none) (sym ((eq_iff "old_str" name).0 is_old)) absent in
          rw gone (and-false (known (filled (text_in (get "path" input)))))
      | inr next ↦
          let same : "new_str" ≡ name =
            (eq_iff "new_str" name).0 (or_false _ (rw (other, next) at named)) in
          let gone : get "new_str" input ≡ none =
            subst (λ n. get n input ≡ none) (sym same) absent in
          rw (gone, and-false (known (text_in (get "old_str" input))))
            (and-false (known (filled (text_in (get "path" input)))))
    ]
  ]

  edit-Refuses :
      (name : String)
      → (str_eq "path" name || (str_eq "old_str" name || (str_eq "new_str" name || false))) ≡ true
      → Refuses c (λ c script. file_edit_tool c) name
  unfolding file_edit_tool
  edit-Refuses name named script input s absent =
      unedited (truthy (get_default "replace_all" (bool false) input))
        (filled (text_in (get "path" input))) (text_in (get "old_str" input))
        (text_in (get "new_str" input)) s (absent_field name named input absent)

  -- The schema of a tool, and what the tool refuses.
  enforces :
      (name : String) (t : ToolDef) (tool : SandboxToolFn S)
      → lookup name builtin_tools ≡ some tool
      → ((field : String) → is_required t field ≡ true → Refuses c tool field)
      → Enforces c (name, t)
  enforces name t tool here refuses other field found needed =
      let same : tool ≡ other = cc (here, found) in
      subst (λ f. Refuses c f field) same (refuses field needed)

  single :
      (field : String) (tool : SandboxToolFn S)
      → Refuses c tool field
      → (name : String) → (str_eq field name || false) ≡ true
      → Refuses c tool name
  single field tool refuses name needed =
      let named : str_eq field name ≡ true = or_false (str_eq field name) needed in
      subst (λ n. Refuses c tool n) ((eq_iff field name).0 named) refuses

  -- What the schemas of the built-in tools require, the tools require: for each schema, each field that
  -- it lists as required and each input without that field, the tool of that name answers with an error
  -- and does not touch the container.
  pub schemas_enforced : All (Enforces c) builtin_tool_schemas
  unfolding lookup get
  schemas_enforced = (
    enforces "bash" bash_tool_def (λ c script. bash_tool c) refl
        (single "command" (λ c script. bash_tool c) bash-Refuses),
    (
      enforces "python" python_tool_def python_tool refl (single "code" python_tool python-Refuses),
      (
        enforces "file_read" file_read_tool_def (λ c script. file_read_tool c) refl
            (single "path" (λ c script. file_read_tool c) read-Refuses),
        (
          enforces "file_write" file_write_tool_def (λ c script. file_write_tool c) refl
              write-Refuses,
          (
            enforces "file_edit" file_edit_tool_def (λ c script. file_edit_tool c) refl
                edit-Refuses,
            (
              enforces "file_list" file_list_tool_def (λ c script. file_list_tool c) refl
                  (λ field needed. absurd (cc needed)),
              tt,
            ),
          ),
        ),
      ),
    ),
  )
