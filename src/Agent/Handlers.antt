-- ===== src/Agent/Handlers.antt =====
-- agent/agent.py: the agent in the virtual machine, the handlers of its routes over the state of the module. What the
-- operating system does is a parameter: whether an action fails, what the paths are, and the name of
-- the temporary file. `actions` is what the agent has set about doing, in its order.
use capev.Base.{
  any, Bool, if◌then◌else◌, List, [], ◌∷◌, ◌++◌, Option, none, some, ℕ, String, str_eq, true, ◌||◌,
}

pub data Status : Type 0 where
  init running completed failed : Status
  -- A status that a POST has set.
  given : String → Status

pub data Action : Type 0 where
  make_directory : String → Action
  make_temporary : Option String → Action
  make_temporary_directory : Option String → Action
  store : String → Action
  extract : String → Action
  remove : String → Action
  execute : String → Action
  execute_python : String → Action
  quit : Action

-- `state`, and what was done. `description` and `client_ip` may be missing.
pub record State : Type 0 where
  pub status : Status
  pub description : Option String
  pub client_ip : Option String
  pub actions : List Action

pub data Method : Type 0 where
  get post : Method

-- The names of the uploaded files are enough here.
pub record Request : Type 0 where
  pub method : Method
  pub path : String
  pub client_ip : String
  pub form : List (String × String)
  pub files : List String

pub record System : Type 0 where
  pub fails : Action → Bool
  pub is_directory : String → Bool
  pub is_file : String → Bool
  pub is_number : String → Bool
  pub local_ip : String

-- The answers. `dropped`: the request is not answered; `crashed`: an exception leaves the handler.
pub data Response : Type 0 where
  success : String → Response
  reported : Status → Option String → Response
  error : ℕ → String → Response
  sent_file : String → Response
  dropped : Response
  crashed : Response

-- `request.form.get(key)`
unfoldable pub form_get : String → List (String × String) → Option String
form_get key [] = none
form_get key ((k, v) ∷ form) = if str_eq k key then some v else form_get key form

-- `key in request.files`
abbrev pub has_file : String → Request → Bool
has_file key r = any (str_eq key) r.files

abbrev pub act : Action → State → State
act a s = record s { actions = s.actions ++ (a ∷ []) }

module _ (sys : System) where
  -- `try: action` with an answer for each of the two ends.
  abbrev pub attempt : Action → String → String → State → Response × State
  attempt a done problem s = (if sys.fails a then error 500 problem else success done, act a s)

  -- `if key not in request.form` with the answer; else the rest of the handler.
  abbrev pub require :
      Option String → String → (String → State → Response × State) → State → Response × State
  require none message rest s = (error 400 message, s)
  require (some value) message rest s = rest value s

  unfoldable pub put_status : Request → State → Response × State
  unfolding form_get
  put_status r = require (form_get "status" r.form) "No status has been provided" λ status s. (
    success "Analysis status updated",
    record s { status = given status; description = form_get "description" r.form },
  )

  -- `int(request.form.get("mode", 0o777))`
  abbrev pub has_mode : Option String → Bool
  has_mode none = true
  has_mode (some mode) = sys.is_number mode

  unfoldable pub do_mkdir : Request → State → Response × State
  unfolding form_get
  do_mkdir r = require (form_get "dirpath" r.form) "No dirpath has been provided" λ dirpath s.
      if has_mode (form_get "mode" r.form)
      then attempt (make_directory dirpath) "Successfully created directory"
          "Error creating directory" s
      else (crashed, s)

  unfoldable pub do_mktemp : Request → State → Response × State
  unfolding form_get
  do_mktemp r =
      attempt (make_temporary (form_get "dirpath" r.form)) "Successfully created temporary file"
        "Error creating temporary file"

  unfoldable pub do_mkdtemp : Request → State → Response × State
  unfolding form_get
  do_mkdtemp r =
      attempt (make_temporary_directory (form_get "dirpath" r.form))
        "Successfully created temporary directory" "Error creating temporary directory"

  unfoldable pub do_store : Request → State → Response × State
  unfolding form_get
  do_store r = require (form_get "filepath" r.form) "No filepath has been provided" λ filepath s.
      if has_file "file" r
      then attempt (store filepath) "Successfully stored file" "Error storing file" s
      else (error 400 "No file has been provided", s)

  unfoldable pub do_retrieve : Request → State → Response × State
  unfolding form_get
  do_retrieve r =
      require (form_get "filepath" r.form) "No filepath has been provided"
        λ filepath s. (sent_file filepath, s)

  unfoldable pub do_extract : Request → State → Response × State
  unfolding form_get
  do_extract r = require (form_get "dirpath" r.form) "No dirpath has been provided" λ dirpath s.
      if has_file "zipfile" r
      then attempt (extract dirpath) "Successfully extracted zip file" "Error extracting zip file" s
      else (error 400 "No zip file has been provided", s)

  unfoldable pub do_remove : Request → State → Response × State
  unfolding form_get
  do_remove r = require (form_get "path" r.form) "No path has been provided" λ path s.
      if sys.is_directory path
      then attempt (remove path) "Successfully deleted directory" "Error removing file or directory"
          s
      else if sys.is_file path
      then attempt (remove path) "Successfully deleted file" "Error removing file or directory" s
      else (error 404 "Path provided does not exist", s)

  -- The end of `do_execute` and of `do_execpy`. The description of an earlier failure stays.
  abbrev pub start : Action → String → State → Response × State
  start a problem s =
      if sys.fails a
      then (
        error 500 "Error executing command",
        act a (record s { status = failed; description = some problem }),
      )
      else (success "Successfully executed command", act a (record s { status = running }))

  unfoldable pub do_execute : Request → State → Response × State
  unfolding form_get
  do_execute r s =
      if str_eq r.client_ip "127.0.0.1" || str_eq r.client_ip sys.local_ip
      then (error 500 "Not allowed to execute commands", s)
      else require (form_get "command" r.form) "No command has been provided"
          (λ command. start (execute command) "Error execute command") s

  unfoldable pub do_execpy : Request → State → Response × State
  unfolding form_get
  do_execpy r =
      require (form_get "filepath" r.form) "No Python file has been provided"
        (λ filepath. start (execute_python filepath) "Error executing command")

  unfoldable pub pin : Option String → Request → State → Response × State
  pin (some ip) r s = (error 500 "Agent has already been pinned to an IP!", s)
  pin none r s = (success "Successfully pinned Agent", record s { client_ip = some r.client_ip })

  unfoldable pub do_pinning : Request → State → Response × State
  unfolding pin
  do_pinning r s = pin s.client_ip r s
