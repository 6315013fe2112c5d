-- ===== src/Sandbox/Tools.antt =====
-- src/tename/sandbox/tools: the built-in tools over a container of the Docker library, whose two
-- calls are an argument.
pub mod Texts
pub mod Files
pub mod Edits
pub mod Builtin
pub mod Outcomes
use Prim.Native.String.{◌++◌ as append}
use tename.Prelude.{
  ℕ, Bool, true, false, not, Option, none, some, List, [], ◌∷◌, String, if◌then◌else◌, ◌==◌, Result,
  ok, err,
}
use tename.Prelude.Actions.{Action, ◌>>=◌, give, raise}
use tename.Json.{is_empty}
use tename.Sandbox.Service.{ToolResult}
use tename.Sandbox.Tools.Texts.{split_last, starts_with_slash, ends_with_slash}

-- A `bytes` object stands for the text of its bytes in Latin-1.
abbrev pub Bytes : Type 0
Bytes = String

-- What `exec_run` answers: the exit code and the two streams, each of them if it has one.
pub record Answered : Type 0 where
  pub exit_code : Option ℕ
  pub stdout : Option Bytes
  pub stderr : Option Bytes

-- What `run_exec` returns.
pub record Exec : Type 0 where
  pub exit_code : ℕ
  pub stdout : String
  pub stderr : String

-- What a tool may raise: an error of the Docker library, and what put_file raises itself.
pub data ToolError : Type 0 where
  docker : ToolError
  not_absolute directory_path put_failed : (path : String) → ToolError
  mkdir_failed : (directory : String) (exit_code : ℕ) → ToolError

-- A container with its state: `exec_run`, and `put_archive` with one file in the archive; UTF-8, where
-- `decode` puts U+FFFD for what is not valid; and the texts of errors and of numbers.
pub record Container (S : Type 0) : Type 0 where
  pub exec_run : List String → Action S ToolError Answered
  pub put_archive : (directory filename : String) → Bytes → Action S ToolError Bool
  pub encode : String → Bytes
  pub decode : Bytes → String
  pub text_of : ToolError → String
  pub decimal : ℕ → String
  pub strip : String → String

infixl 20 ◌<>◌
abbrev pub ◌<>◌ : String → String → String
a <> b = append a b

abbrev root_or : String → String
root_or d = if is_empty d then "/" else d

abbrev pub split_path : String → Option (String × String) → Result ToolError (String × String)
split_path path none = ok ("/", path)
split_path path (some (d, f)) = ok (root_or d, f)

-- _split_abs, after the test of `put_file` for an absolute path
unfoldable pub split_abs : String → Result ToolError (String × String)
split_abs path =
    if not (starts_with_slash path)
    then err (not_absolute path)
    else if ends_with_slash path
    then err (directory_path path)
    else split_path path (split_last path)

abbrev pub failure : String → ToolResult
failure message = record {
  is_error = true;
  content = message;
  stdout = "";
  stderr = "";
  exit_code = none;
  error = some message;
}

abbrev pub success : String → ToolResult
success message = record {
  is_error = false;
  content = message;
  stdout = "";
  stderr = "";
  exit_code = none;
  error = none;
}

-- _missing
unfoldable pub missing : String → String → ToolResult
missing tool field =
    failure (tool <> ": missing required input '" <> field <> "' (non-empty string)")

module _ {S : Type 0} (c : Container S) where
  abbrev pub decode_stream : Option Bytes → String
  decode_stream none = ""
  decode_stream (some b) = c.decode b

  abbrev exit_or_zero : Option ℕ → ℕ
  exit_or_zero none = 0
  exit_or_zero (some n) = n

  abbrev pub decoded_exec : Answered → Exec
  decoded_exec r = record {
    exit_code = exit_or_zero r.exit_code;
    stdout = decode_stream r.stdout;
    stderr = decode_stream r.stderr;
  }

  unfoldable pub run_exec : List String → Action S ToolError Exec
  run_exec cmd = c.exec_run cmd >>= λ r. give (decoded_exec r)

  abbrev raise_unless : Bool → ToolError → Action S ToolError (Unit {0})
  raise_unless true e = give tt
  raise_unless false e = raise e

  abbrev pub upload :
      (path content : String) → Result ToolError (String × String) → Action S ToolError (Unit {0})
  upload path content (err e) = raise e
  upload path content (ok (directory, filename)) =
      run_exec ("mkdir" ∷ "-p" ∷ directory ∷ []) >>= λ made.
      raise_unless (made.exit_code == 0) (mkdir_failed directory made.exit_code) >>= λ u.
      c.put_archive directory filename (c.encode content) >>= λ stored.
      raise_unless stored (put_failed path)

  unfoldable pub put_file : (path content : String) → Action S ToolError (Unit {0})
  put_file path content = upload path content (split_abs path)

  -- The result of a failed command: its stderr, or the fallback.
  abbrev pub failed_exec : String → Exec → ToolResult
  failed_exec fallback r =
      let stripped = c.strip r.stderr in
      let message = if is_empty stripped then fallback else stripped in
      record (failure message) {
        stdout = r.stdout;
        stderr = r.stderr;
        exit_code = some r.exit_code;
      }

  abbrev pub finished_exec : Exec → ToolResult
  finished_exec r = record (success r.stdout) {
    stdout = r.stdout;
    stderr = r.stderr;
    exit_code = some r.exit_code;
  }

  abbrev both_streams : String → String → String
  both_streams stdout stderr =
      if is_empty stderr
      then stdout
      else if is_empty stdout
      then "[stderr]\n" <> stderr
      else stdout <> "\n[stderr]\n" <> stderr

  -- What bash and python make of a command that ran.
  unfoldable pub command_result : String → Exec → ToolResult
  command_result tool r = record {
    is_error = not (r.exit_code == 0);
    content = both_streams r.stdout r.stderr;
    stdout = r.stdout;
    stderr = r.stderr;
    exit_code = some r.exit_code;
    error =
        if r.exit_code == 0
        then none
        else some (tool <> " exited with code " <> c.decimal r.exit_code);
  }
