-- ===== src/Behavior/Marks.antt =====
-- modules/processing/behavior.py, `Summary.event_apicall`: what its branches append to the lists.
use capev.Base.{
  Bool, if◌then◌else◌, List, [], ◌∷◌, ◌++◌, Option, none, some, ◌==◌, ℕ, bit_and, map, not, ◌&&◌,
  ◌||◌,
}
use capev.Behavior.Texts.{command, or_else, shown, truthy, with_drive}
use capev.Behavior.Calls.{Call, Python, Raw, Text, get_argument, get_raw_argument, get_stripped}

pub data Field : Type 0 where
  keys : Field
  read_keys : Field
  write_keys : Field
  delete_keys : Field
  mutexes : Field
  files : Field
  read_files : Field
  write_files : Field
  delete_files : Field
  started_services : Field
  created_services : Field
  executed_commands : Field
  resolved_apis : Field

abbrev pub index : Field → ℕ
index keys = 0
index read_keys = 1
index write_keys = 2
index delete_keys = 3
index mutexes = 4
index files = 5
index read_files = 6
index write_files = 7
index delete_files = 8
index started_services = 9
index created_services = 10
index executed_commands = 11
index resolved_apis = 12

-- A list of the object, and a name for it.
pub record Mark : Type 0 where
  pub field : Field
  pub name : Text

-- `if name and name not in self.<field>`, for each of the fields in turn.
unfoldable pub marks : Option Text → List Field → List Mark
marks none fields = []
marks (some []) fields = []
marks (some (c ∷ cs)) fields = map (λ f. record { field = f; name = c ∷ cs }) fields

abbrev pub then_int : Option ℕ → (ℕ → List Mark) → Option (List Mark)
then_int none f = none
then_int (some n) f = some (f n)

-- `int(value)`, which raises an error on None too.
abbrev pub int_of : (ℕ → Text → Option ℕ) → Option Text → Option ℕ
int_of int none = none
int_of int (some t) = int 10 t

abbrev pub only : Bool → Field → List Field
only b f = if b then f ∷ [] else []

module _ (py : Python) (call : Call) where
  -- `RegCreateKeyEx` and `NtCreateKey`; disposition 1 means a new key.
  unfoldable pub create_key : Option Text → Option (List Mark)
  unfolding get_argument
  create_key name =
      then_int (int_of py.int (get_argument call "Disposition"))
        (λ disposition. marks name (keys ∷ only (disposition == 1) write_keys))

  abbrev pub shell_execute : Option Text → Option (List Mark)
  shell_execute none = none
  shell_execute (some filename) = some (
      marks (with_drive filename) (files ∷ [])
      ++ marks (command (get_stripped py call "FilePath") (get_stripped py call "Parameters"))
          (executed_commands ∷ []))

  -- `struct.unpack_from("B", fileinfo)[0]`, which raises an error on no bytes.
  abbrev pub disposed : Option Text → List ℕ → Option (List Mark)
  disposed filename [] = none
  disposed filename (b ∷ bs) = some (if b == 0 then [] else marks filename (delete_files ∷ []))

  abbrev pub delete_info : Option Text → Option Raw → Option (List Mark)
  delete_info filename none = some []
  delete_info filename (some (Raw.bytes [])) = some []
  delete_info filename (some (Raw.bytes (b ∷ bs))) = disposed filename (b ∷ bs)
  delete_info filename (some (Raw.text [])) = some []
  delete_info filename (some (Raw.text (c ∷ cs))) = disposed filename (py.encode (c ∷ cs))

  abbrev pub set_information : Option ℕ → Option Text → Option (List Mark)
  set_information none filename = none
  set_information (some infoclass) filename =
      if truthy filename && infoclass == 13
      then delete_info filename (get_raw_argument call "FileInformation")
      else some []

  unfoldable pub delete_or_remove : List Mark
  unfolding get_argument
  delete_or_remove =
      marks (or_else (get_argument call "FileName") (get_argument call "DirectoryName"))
        (files ∷ delete_files ∷ [])

  -- `LdrGetProcedureAddress`; the name that it makes has a dot, so it is not empty.
  abbrev pub resolve : Option Text → Option Text → Option (List Mark)
  resolve none funcname = none
  resolve (some dllname) funcname =
      some (marks (some (py.lower dllname ++ (46 ∷ shown funcname))) (resolved_apis ∷ []))

  abbrev pub ordinal : Text
  ordinal = 35 ∷ shown (get_argument call "Ordinal")

  abbrev pub move_file : List Mark
  move_file =
      marks (get_argument call "ExistingFileName") (files ∷ delete_files ∷ [])
      ++ marks (get_argument call "NewFileName") (files ∷ write_files ∷ [])

  -- `int(accessval, 16) if accessval else None`; None has no bits.
  abbrev pub access_of : Option Text → Option ℕ
  access_of none = some 0
  access_of (some []) = some 0
  access_of (some (c ∷ cs)) = py.int 16 (c ∷ cs)

  abbrev pub has_bit : ℕ → ℕ → Bool
  has_bit access mask = not (bit_and access mask == 0)

  abbrev pub reads : ℕ → Bool
  reads access =
      has_bit access 0x80000000
      || has_bit access 0x10000000
      || has_bit access 0x2000000
      || has_bit access 0x1

  abbrev pub writes : ℕ → Bool
  writes access =
      has_bit access 0x40000000
      || has_bit access 0x10000000
      || has_bit access 0x2000000
      || has_bit access 0x6

  -- The category "filesystem".
  unfoldable pub file_access : Option (List Mark)
  unfolding get_argument
  file_access = then_int (access_of (get_argument call "DesiredAccess")) (λ access.
      marks (or_else (get_argument call "FileName") (get_argument call "DirectoryName"))
        (only (reads access) read_files ++ (only (writes access) write_files ++ (files ∷ [])))
      ++ marks (get_argument call "ExistingFileName") (read_files ∷ files ∷ [])
      ++ marks (get_argument call "NewFileName") (write_files ∷ files ∷ []))
