-- ===== src/Behavior/Summary.antt =====
-- modules/processing/behavior.py, `Summary`: thirteen lists of names that are taken from the calls. In
-- each branch of `event_apicall` all that can raise an error comes before the first append, and each
-- append asks only whether its own list has the name; so a branch is the list of its appends.
use capev.Base.{
  Bool, String, if◌then◌else◌, length, List, [], ◌∷◌, ◌++◌, Option, none, some, ◌==◌, ltb, ℕ, any,
  bit_and, map, not, false, ◌&&◌, ◌||◌,
}
use capev.Base.Bytes.{codes, same_bytes}
use capev.Behavior.Texts.{command, or_else, process_command, shown, truthy, with_drive}
use capev.Behavior.Calls.{
  Call, Python, Raw, Text, api_is, api_starts, category_is, get_argument, get_raw_argument,
  get_stripped,
}
use capev.Behavior.Marks.{
  Field, Mark, marks, keys, read_keys, write_keys, delete_keys, mutexes, files, read_files,
  write_files, delete_files, started_services, created_services, executed_commands, resolved_apis,
  index, create_key, int_of, set_information, shell_execute, delete_or_remove, move_file, resolve,
  ordinal, file_access,
}
pub mod Collected
pub mod Closed
pub mod Parts

module _ (py : Python) (call : Call) where
  abbrev pub api_in : List String → Bool
  api_in names = any (api_is call) names

  abbrev pub path_of : Option Text → Option Text
  path_of none = none
  path_of (some t) = with_drive t

  -- The tests of `event_apicall` in their order, each with its branch; none raises an error.
  abbrev pub branches : List (Bool × Option (List Mark))
  branches =
      (api_starts call "RegOpenKeyEx", some (marks (get_argument call "FullName") (keys ∷ [])))
      ∷ (
        api_starts call "RegSetValue" || api_is call "NtSetValueKey",
        some (marks (get_argument call "FullName") (keys ∷ write_keys ∷ [])),
      )
      ∷ (
        api_in ("NtDeleteValueKey" ∷ "NtDeleteKey" ∷ []) || api_starts call "RegDeleteValue",
        some (marks (get_argument call "FullName") (keys ∷ delete_keys ∷ [])),
      )
      ∷ (api_starts call "RegCreateKeyEx", create_key py call (get_argument call "FullName"))
      ∷ (
        api_starts call "NtOpenKey",
        some (marks (get_argument call "ObjectAttributes") (keys ∷ [])),
      )
      ∷ (api_is call "NtCreateKey", create_key py call (get_argument call "ObjectAttributes"))
      ∷ (
        api_in ("NtQueryValueKey" ∷ "NtQueryMultipleValueKey" ∷ [])
            || api_starts call "RegQueryValue",
        some (marks (get_argument call "FullName") (keys ∷ read_keys ∷ [])),
      )
      ∷ (
        api_is call "SHGetFileInfoW",
        some (marks (path_of (get_argument call "Path")) (files ∷ [])),
      )
      ∷ (api_is call "ShellExecuteExW", shell_execute py call (get_argument call "FilePath"))
      ∷ (
        api_is call "NtSetInformationFile",
        set_information py call (int_of py.int (get_argument call "FileInformationClass"))
            (get_argument call "HandleName"),
      )
      ∷ (
        api_starts call "DeleteFile"
            || api_is call "NtDeleteFile"
            || api_starts call "RemoveDirectory",
        some (delete_or_remove py call),
      )
      ∷ (
        api_starts call "StartService",
        some (marks (get_stripped py call "ServiceName") (started_services ∷ [])),
      )
      ∷ (
        api_starts call "CreateService",
        some (marks (get_stripped py call "ServiceName") (created_services ∷ [])),
      )
      ∷ (
        api_in (
            "CreateProcessInternalW" ∷ "NtCreateUserProcess" ∷ "CreateProcessWithTokenW"
            ∷ "CreateProcessWithLogonW" ∷ []),
        some (
            marks
              (process_command (get_stripped py call "ApplicationName")
                (get_stripped py call "CommandLine"))
              (executed_commands ∷ [])),
      )
      ∷ (
        api_is call "LdrGetProcedureAddress" && call.status,
        resolve py call (get_argument call "ModuleName")
            (or_else (get_argument call "FunctionName") (some (ordinal py call))),
      )
      ∷ (
        api_starts call "NtCreateProcess",
        some (marks (get_argument call "FileName") (executed_commands ∷ [])),
      )
      ∷ (
        api_in ("MoveFileWithProgressW" ∷ "MoveFileWithProgressTransactedW" ∷ []),
        some (move_file py call),
      )
      ∷ (category_is call "filesystem", file_access py call)
      ∷ (
        category_is call "synchronization",
        some (marks (get_argument call "MutexName") (mutexes ∷ [])),
      )
      ∷ []

-- An if with its elifs.
abbrev pub select : List (Bool × Option (List Mark)) → Option (List Mark)
select [] = some []
select ((test, branch) ∷ rest) = let later = select rest in if test then branch else later

-- The lists of the object.
abbrev pub Lists : Type 0
Lists = Field → List Text

-- `if name not in self.<field>: self.<field>.append(name)`
unfoldable pub note : Mark → Lists → Lists
note m s f =
    if index m.field == index f && not (any (same_bytes m.name) (s f))
    then s f ++ (m.name ∷ [])
    else s f

unfoldable pub note_all : List Mark → Lists → Lists
unfolding note
note_all [] s = s
note_all (m ∷ ms) s = note_all ms (note m s)

-- The caller logs an error and goes on with the next call.
abbrev pub settle : Option (List Mark) → Lists → Lists
settle none s = s
settle (some ms) s = note_all ms s

unfoldable pub event_apicall : Python → Call → Lists → Lists
unfolding note_all
event_apicall py call s = settle (select (branches py call)) s

-- The summary of all calls; `run` returns the lists.
unfoldable pub collect : Python → List Call → Lists → Lists
unfolding event_apicall
collect py [] s = s
collect py (call ∷ calls) s = collect py calls (event_apicall py call s)
