-- ===== src/Tests/ToolRuns.antt =====
-- The tools of a sandbox in a container that is an association list of files.
use tename.Prelude.{
  ◌≡◌, refl, true, Option, none, some, List, [], ◌∷◌, String, str_eq, if◌then◌else◌, Result, ok,
  err, ◌==◌, ◌&&◌, eq_iff, subst,
}
use tename.Prelude.Actions.{catch}
use tename.Json.{Fields, str, end, field, get, truthy}
use tename.Sandbox.Tools.Texts.{
  count, count_from, drop_prefix, weave, replace_first, replace_from, replace_all, split_last,
  starts_with_slash, ends_with_slash,
}
use tename.Sandbox.Tools.{
  ToolError, Container, Answered, decoded_exec, run_exec, split_abs, put_file,
}
use tename.Sandbox.Tools.Files.{file_edit_tool, edit_file, edit_read, store_file}
use tename.Sandbox.Tools.Outcomes.{Honest, FileEdit, bytes_of, file_edit_tool_lem}

-- Each file under its directory and its name.
abbrev pub Disk : Type 0
Disk = List (String × String × String)

unfoldable pub look_up : String → String → Disk → Option String
look_up directory name [] = none
look_up directory name ((d, f, t) ∷ rest) =
    let later = look_up directory name rest in
    if str_eq d directory && str_eq f name then some t else later

abbrev at_place : Disk → Result ToolError (String × String) → Option String
at_place d (err e) = none
at_place d (ok (directory, name)) = look_up directory name d

abbrev pub on_disk : Disk → String → Option String
on_disk d path = at_place d (split_abs path)

abbrev answer_cat : Option String → Answered
answer_cat none = record { exit_code = some 1; stdout = none; stderr = some "no such file" }
answer_cat (some t) = record { exit_code = some 0; stdout = some t; stderr = none }

-- `cat -- path`; any other command succeeds and prints nothing
abbrev run_on : List String → Disk → Answered
run_on (a ∷ b ∷ path ∷ []) d =
    if str_eq a "cat" then answer_cat (on_disk d path) else answer_cat (some "")
run_on other d = answer_cat (some "")

abbrev pub box : Container Disk
box = record {
  exec_run = λ command d. (d, ok (run_on command d));
  put_archive = λ directory filename content d. ((directory, filename, content) ∷ d, ok true);
  encode = λ t. t;
  decode = λ b. b;
  text_of = λ e. "error";
  decimal = λ n. "2";
  strip = λ t. t;
}

cat_on :
    (found : Option String)
    → ((decoded_exec box (answer_cat found)).exit_code == 0) ≡ true
    → found ≡ some (bytes_of (answer_cat found).stdout)
cat_on none h = cc h
cat_on (some t) h = refl

look_up-put :
    (directory name content : String) (d : Disk)
    → look_up directory name ((directory, name, content) ∷ d) ≡ some content
unfolding look_up
look_up-put directory name content d =
    rw ((eq_iff directory directory).1 refl, (eq_iff name name).1 refl) refl

box-Honest : Honest box on_disk
box-Honest = record {
  cat = λ path s s' r ran fine.
      let same : s ≡ s' = cc ran in
      let answered : answer_cat (on_disk s path) ≡ r = cc ran in
      let at_old : on_disk s path ≡ some (bytes_of r.stdout) =
        subst (λ a. on_disk s path ≡ some (bytes_of a.stdout)) answered
          (cat_on (on_disk s path) (rw answered fine)) in
      (at_old, subst (λ d. on_disk d path ≡ some (bytes_of r.stdout)) same at_old);
  archive = λ path directory filename content s s' to put.
      let same : (directory, filename, content) ∷ s ≡ s' = cc put in
      subst (λ d. on_disk d path ≡ some content) same
        (rw to (look_up-put directory filename content s));
  decode-encode = λ t. refl;
  decode_nothing = refl;
}

abbrev disk : Disk
disk = ("/workspace", "a.py", "x = 1") ∷ []

abbrev edit_input : Fields
edit_input =
    field "path" (str "/workspace/a.py")
      (field "old_str" (str "1") (field "new_str" (str "23") end))

file_edit_tool_example :
    FileEdit box on_disk box-Honest "/workspace/a.py" "1" "23" disk
      (file_edit_tool box edit_input disk)
unfolding get truthy
file_edit_tool_example =
    file_edit_tool_lem box on_disk box-Honest edit_input "/workspace/a.py" "1" "23" disk refl refl
      refl refl refl

edit_writes : on_disk ((file_edit_tool box edit_input disk).0) "/workspace/a.py" ≡ some "x = 23"
unfolding file_edit_tool run_exec edit_file edit_read store_file catch count count_from drop_prefix
    replace_first put_file split_abs split_last starts_with_slash ends_with_slash look_up get truthy
edit_writes = refl

edit_overlaps : replace_all "aa" "b" "aaaaa" ≡ "bba"
unfolding drop_prefix replace_all replace_from
edit_overlaps = refl

weaves : replace_all "" "-" "ab" ≡ "-a-b-"
unfolding replace_all weave
weaves = refl
