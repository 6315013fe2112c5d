-- ===== src/Sandbox/Tools/Outcomes.antt =====
-- What file_edit leaves in the container, for a container whose `cat` and `put_archive` keep their
-- word on the files.
use tename.Prelude.{
  ◌≡◌, ◌≢◌, refl, ap, sym, subst, ◌∙◌, none, Bool, true, false, Option, some, [], ◌∷◌, String,
  Result, ok, err, Bool-cases, inl, inr, arith, ltb, ◌==◌, if◌then◌else◌,
}
use tename.Prelude.Actions.{◌>>=◌, continue, continue_rule, give, recover, catch}
use tename.Json.{Fields, bool, str, get, get_default, is_empty, truthy}
use tename.Sandbox.Service.{ToolResult}
use tename.Sandbox.Tools.Texts.{count, replace_first, Edited}
use tename.Sandbox.Tools.Edits.{replace_first-Edited}
use tename.Sandbox.Tools.{
  Exec, ToolError, Container, ◌<>◌, failure, success, split_abs, raise_unless, upload, put_file,
  mkdir_failed, put_failed, run_exec, decode_stream, decoded_exec, Bytes, Answered,
}
use tename.Sandbox.Tools.Files.{store_file, unreadable_result, edit_read, edit_file, file_edit_tool}

abbrev pub bytes_of : Option Bytes → Bytes
bytes_of none = ""
bytes_of (some b) = b

-- The files of a container as bytes, and what `cat` and `put_archive` do to them; decoding undoes
-- encoding, and nothing decodes to nothing.
pub record Honest {S : Type 0} (c : Container S) (files : S → String → Option Bytes) : Type 0 where
  pub cat :
      (path : String) (s s' : S) (r : Answered)
      → c.exec_run ("cat" ∷ "--" ∷ path ∷ []) s ≡ (s', ok r)
      → ((decoded_exec c r).exit_code == 0) ≡ true
      → (files s path ≡ some (bytes_of r.stdout)) × (files s' path ≡ some (bytes_of r.stdout))
  pub archive :
      (path directory filename : String) (content : Bytes) (s s' : S)
      → split_abs path ≡ ok (directory, filename)
      → c.put_archive directory filename content s ≡ (s', ok true)
      → files s' path ≡ some content
  pub decode-encode : (t : String) → c.decode (c.encode t) ≡ t
  pub decode_nothing : c.decode "" ≡ ""

module _ {S : Type 0} (c : Container S) (files : S → String → Option Bytes)
    (honest : Honest c files) where
  abbrev Stored : String → String → S × Result ToolError (Unit {0}) → Type 0
  Stored path content out = out.1 ≡ ok tt → files out.0 path ≡ some (c.encode content)

  confirmed :
      (path directory filename content : String) (s s' : S) (stored : Bool)
      → split_abs path ≡ ok (directory, filename)
      → c.put_archive directory filename (c.encode content) s ≡ (s', ok stored)
      → Stored path content (raise_unless c stored (put_failed path) s')
  confirmed path directory filename content s s' true to put =
      λ _. honest.archive path directory filename (c.encode content) s s' to put
  confirmed path directory filename content s s' false to put = λ h. cc h

  uploaded :
      (path content : String) (where_to : Result ToolError (String × String)) (s : S)
      → split_abs path ≡ where_to
      → Stored path content (upload c path content where_to s)
  uploaded path content (err e) s to = λ h. cc h
  uploaded path content (ok (directory, filename)) s to =
      continue_rule (Stored path content) (run_exec c ("mkdir" ∷ "-p" ∷ directory ∷ []) s)
        (λ made.
          raise_unless c (made.exit_code == 0) (mkdir_failed directory made.exit_code) >>= λ u.
          c.put_archive directory filename (c.encode content) >>= λ stored.
          raise_unless c stored (put_failed path))
        (λ e h. cc h)
        (λ made ran.
          let s₁ = (run_exec c ("mkdir" ∷ "-p" ∷ directory ∷ []) s).0 in
          continue_rule (Stored path content)
            (raise_unless c (made.exit_code == 0) (mkdir_failed directory made.exit_code) s₁)
            (λ u. c.put_archive directory filename (c.encode content) >>= λ stored.
              raise_unless c stored (put_failed path))
            (λ e h. cc h)
            (λ u made_it.
              let s₂ =
                (raise_unless c (made.exit_code == 0) (mkdir_failed directory made.exit_code)
                  s₁).0 in
              let put = c.put_archive directory filename (c.encode content) s₂ in
              continue_rule (Stored path content) put
                (λ stored. raise_unless c stored (put_failed path)) (λ e h. cc h)
                (λ stored answered.
                  confirmed path directory filename content s₂ put.0 stored to
                    (ap (λ r. (put.0, r)) answered))))

  put_file-Stored :
      (path content : String) (s : S) → Stored path content (put_file c path content s)
  unfolding put_file
  put_file-Stored path content s = uploaded path content (split_abs path) s refl

  -- What editing a file of this content comes to.
  pub data Edits (path old new original : String) (s : S)
      : S × Result ToolError ToolResult → Type 0 where
    refused :
        (r : ToolResult)
        → count old original ≢ 1
        → r.is_error ≡ true
        → Edits path old new original s (s, ok r)
    written :
        (r : ToolResult) (s' : S) (text : String)
        → count old original ≡ 1
        → Edited old new original text
        → files s' path ≡ some (c.encode text)
        → r.is_error ≡ false
        → Edits path old new original s (s', ok r)
    not_stored :
        (r : ToolResult) (e : ToolError) (s' : S)
        → put_file c path (replace_first old new original) s ≡ (s', err e)
        → r.is_error ≡ true
        → Edits path old new original s (s', ok r)

  put_back :
      (path old new original prefix message : String) (s : S)
      (out : S × Result ToolError (Unit {0}))
      → put_file c path (replace_first old new original) s ≡ out
      → Stored path (replace_first old new original) out
      → count old original ≡ 1
      → Edits path old new original s (
          recover
            (λ e. give (failure (prefix <> c.text_of e)))
            (continue out (λ u. give (success message))))
  put_back path old new original prefix message s (s', ok tt) put kept one =
      written _ s' (replace_first old new original) one
        (replace_first-Edited old new original (omega (arith, one))) (kept refl) refl
  put_back path old new original prefix message s (s', err e) put kept one =
      not_stored _ e s' put refl

  pub edit_read-Edits :
      (path old new original : String) (s : S)
      → Edits path old new original s (edit_read c false path old new original s)
  unfolding edit_read store_file catch
  edit_read-Edits path old new original s = elim (Bool-cases (count old original == 0)) [
    | inl missing ↦ rw missing (refused _ (ground arith) refl)
    | inr some_found ↦ elim (Bool-cases (ltb 1 (count old original))) [
      | inl many ↦ rw (some_found, many) (refused _ (ground arith) refl)
      | inr at_most ↦
          rw (some_found, at_most)
            (put_back path old new original "file_edit: " _ s _ refl
              (put_file-Stored path (replace_first old new original) s) (ground arith))
    ]
  ]

  -- What file_edit comes to: `cat` raised, `cat` failed, or the file was read and edited.
  pub data FileEdit (path old new : String) (s : S) : S × Result ToolError ToolResult → Type 0 where
    raised :
        (e : ToolError) (s' : S)
        → run_exec c ("cat" ∷ "--" ∷ path ∷ []) s ≡ (s', err e)
        → FileEdit path old new s (s', err e)
    unreadable :
        (r : ToolResult) (answer : Exec) (s' : S)
        → run_exec c ("cat" ∷ "--" ∷ path ∷ []) s ≡ (s', ok answer)
        → (answer.exit_code == 0) ≡ false
        → r.is_error ≡ true
        → FileEdit path old new s (s', ok r)
    read :
        (content : Bytes) (original : String) (s' : S) (out : S × Result ToolError ToolResult)
        → files s path ≡ some content
        → files s' path ≡ some content
        → c.decode content ≡ original
        → ((t : String) → content ≡ c.encode t → original ≡ t)
        → Edits path old new original s' out
        → FileEdit path old new s out

  decode_stream-bytes_of : (o : Option Bytes) → c.decode (bytes_of o) ≡ decode_stream c o
  decode_stream-bytes_of none = honest.decode_nothing
  decode_stream-bytes_of (some b) = refl

  -- What a `cat` that succeeds has read.
  read_back :
      (path : String) (s s' : S) (r : Exec)
      → run_exec c ("cat" ∷ "--" ∷ path ∷ []) s ≡ (s', ok r)
      → (r.exit_code == 0) ≡ true
      → (content : Bytes) × (files s path ≡ some content)
        × (files s' path ≡ some content)
        × (c.decode content ≡ r.stdout)
  unfolding run_exec
  read_back path s s' r ran fine = from (c.exec_run ("cat" ∷ "--" ∷ path ∷ []) s) refl ran
    where
      from :
          (out : S × Result ToolError Answered)
          → c.exec_run ("cat" ∷ "--" ∷ path ∷ []) s ≡ out
          → continue out (λ a. give (decoded_exec c a)) ≡ (s', ok r)
          → (content : Bytes) × (files s path ≡ some content)
            × (files s' path ≡ some content)
            × (c.decode content ≡ r.stdout)
      from (t, err e) answered h = absurd (cc h)
      from (t, ok a) answered h =
          let state : t ≡ s' = cc h in
          let same : decoded_exec c a ≡ r = cc h in
          let kept =
            honest.cat path s t a answered
              (subst (λ x. (x.exit_code == 0) ≡ true) (sym same) fine) in
          (
            bytes_of a.stdout,
            kept.0,
            subst (λ x. files x path ≡ some (bytes_of a.stdout)) state kept.1,
            decode_stream-bytes_of a.stdout ∙ ap (λ (x : Exec). x.stdout) same,
          )

  after_cat :
      (path old new : String) (s : S) (out : S × Result ToolError Exec)
      → run_exec c ("cat" ∷ "--" ∷ path ∷ []) s ≡ out
      → FileEdit path old new s (
          continue out (λ r.
            if r.exit_code == 0
            then edit_read c false path old new r.stdout
            else give (unreadable_result c path r)))
  after_cat path old new s (s', err e) ran = raised e s' ran
  after_cat path old new s (s', ok r) ran = elim (Bool-cases (r.exit_code == 0)) [
    | inl fine ↦
        let from = read_back path s s' r ran fine in
        rw fine (
          read from.0 r.stdout s' _ from.1 from.2 from.3
            (λ t utf8. sym from.3 ∙ ap c.decode utf8 ∙ honest.decode-encode t)
            (edit_read-Edits path old new r.stdout s'))
    | inr failed ↦ rw failed (unreadable _ r s' ran failed refl)
  ]

  -- file_edit, without replace_all and on input that passes its checks, on a container whose `cat` and
  -- `put_archive` keep their word on the files: if `cat` raises, so does the tool; if `cat` fails, it
  -- reports an error; otherwise it has read the bytes of the file, and if the old text does not match
  -- their decoding exactly once it reports an error and does nothing more, else it leaves the file as
  -- the encoding of that decoding with that match replaced and reports success, or reports an error
  -- if put_file raised. The decoding of a file that is the encoding of a text is that text.
  pub file_edit_tool_lem :
      (input : Fields) (path old new : String) (s : S)
      → get "path" input ≡ some (str path)
      → is_empty path ≡ false
      → get "old_str" input ≡ some (str old)
      → get "new_str" input ≡ some (str new)
      → truthy (get_default "replace_all" (bool false) input) ≡ false
      → FileEdit path old new s (file_edit_tool c input s)
  unfolding file_edit_tool edit_file
  file_edit_tool_lem input path old new s at_path some_path at_old at_new first =
      rw (first, at_path, some_path, at_old, at_new)
        (after_cat path old new s (run_exec c ("cat" ∷ "--" ∷ path ∷ []) s) refl)
