-- ===== src/Sandbox/Schemas.antt =====
-- src/tename/sandbox/schemas.py: what the model is told of the built-in tools.
use tename.Prelude.{List, [], ◌∷◌, String}
use tename.Json.{Items, Fields, str, arr, obj, nil, cons, end, field}
use tename.Router.Types.{ToolDef}

-- _schema
abbrev pub schema : (properties : Fields) (required : Items) → Fields
schema properties required =
    field "type" (str "object")
      (field "properties" (obj properties) (field "required" (arr required) end))

abbrev pub bash_schema : Fields
bash_schema =
    schema
      (field "command"
        (obj (
          field "type" (str "string")
            (field "description" (str "Shell command to run via `bash -lc`.") end)))
        end)
      (cons (str "command") nil)

abbrev pub python_schema : Fields
python_schema =
    schema
      (field "code"
        (obj (
          field "type" (str "string") (
            field "description"
              (str
                "Python source to execute. Runs as a script in the sandbox with stdout/stderr captured.")
              end)))
        end)
      (cons (str "code") nil)

abbrev pub file_read_schema : Fields
file_read_schema =
    schema
      (field "path"
        (obj (
          field "type" (str "string")
            (field "description" (str "Absolute path to read inside the sandbox filesystem.") end)))
        end)
      (cons (str "path") nil)

abbrev pub file_write_schema : Fields
file_write_schema =
    schema
      (field "path"
        (obj
          (field "type" (str "string") (field "description" (str "Absolute path to write.") end)))
        (field "content"
          (obj (field "type" (str "string") (field "description" (str "File content.") end))) end))
      (cons (str "path") (cons (str "content") nil))

abbrev pub file_edit_schema : Fields
file_edit_schema =
    schema
      (field "path" (obj (field "type" (str "string") end)) (
        field "old_str" (obj (field "type" (str "string") end)) (
          field "new_str" (obj (field "type" (str "string") end)) (
            field "replace_all"
              (obj (
                field "type" (str "boolean") (
                  field "description"
                    (str "Replace every match instead of erroring on ambiguous matches.") end)))
              end))))
      (cons (str "path") (cons (str "old_str") (cons (str "new_str") nil)))

abbrev pub file_list_schema : Fields
file_list_schema =
    schema
      (field "path"
        (obj (
          field "type" (str "string")
            (field "description" (str "Directory to list (defaults to /workspace).") end)))
        end)
      nil

abbrev pub bash_tool_def : ToolDef
bash_tool_def = record {
  name = "bash";
  description =
      "Execute a shell command inside the sandbox. Returns stdout, stderr, and exit code.";
  input_schema = bash_schema;
}

abbrev pub python_tool_def : ToolDef
python_tool_def = record {
  name = "python";
  description =
      "Execute Python code inside the sandbox. Returns stdout, stderr, and the exit status. Use for calculations, data manipulation, and running scripts.";
  input_schema = python_schema;
}

abbrev pub file_read_tool_def : ToolDef
file_read_tool_def = record {
  name = "file_read";
  description = "Read a file from the sandbox filesystem by absolute path.";
  input_schema = file_read_schema;
}

abbrev pub file_write_tool_def : ToolDef
file_write_tool_def = record {
  name = "file_write";
  description = "Create or overwrite a file in the sandbox at an absolute path.";
  input_schema = file_write_schema;
}

abbrev pub file_edit_tool_def : ToolDef
file_edit_tool_def = record {
  name = "file_edit";
  description =
      "Apply a string-replacement edit to an existing sandbox file. Errors on ambiguous matches unless `replace_all` is true.";
  input_schema = file_edit_schema;
}

abbrev pub file_list_tool_def : ToolDef
file_list_tool_def = record {
  name = "file_list";
  description = "List files in a sandbox directory. Defaults to /workspace.";
  input_schema = file_list_schema;
}

-- BUILTIN_TOOL_SCHEMAS
abbrev pub builtin_tool_schemas : List (String × ToolDef)
builtin_tool_schemas =
    ("bash", bash_tool_def)
    ∷ ("python", python_tool_def)
    ∷ ("file_read", file_read_tool_def)
    ∷ ("file_write", file_write_tool_def)
    ∷ ("file_edit", file_edit_tool_def)
    ∷ ("file_list", file_list_tool_def)
    ∷ []
