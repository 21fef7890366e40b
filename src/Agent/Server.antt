-- ===== src/Agent/Server.antt =====
-- agent/agent.py, `MiniHTTPServer.handle` and the table of routes. A path is compared as a whole: the
-- patterns have no special characters, and each ends with `$`.
use capev.Base.{
  Bool, if◌then◌else◌, List, [], ◌∷◌, Option, none, some, String, str_eq, true, false, ◌&&◌, ◌||◌,
}
use capev.Agent.Handlers.{
  Action, act, do_execpy, do_execute, do_extract, do_mkdir, do_mkdtemp, do_mktemp, do_pinning,
  do_remove, do_retrieve, do_store, dropped, error, get, Method, post, put_status, quit, reported,
  Request, Response, State, success, System,
}
pub mod Pinned
pub mod Report
pub mod Obeys

pub record Route : Type 0 where
  pub method : Method
  pub path : String
  pub handler : Request → State → Response × State

abbrev pub same_method : Method → Method → Bool
same_method get get = true
same_method get post = false
same_method post get = false
same_method post post = true

module _ (sys : System) where
  abbrev pub answer : String → Request → State → Response × State
  answer message r s = (success message, s)

  abbrev pub get_status : Request → State → Response × State
  get_status r s = (reported s.status s.description, s)

  abbrev pub do_kill : Request → State → Response × State
  do_kill r s = (success "Quit the CAPE Agent", act quit s)

  abbrev pub on : Method → String → (Request → State → Response × State) → Route
  on method path handler = record { method = method; path = path; handler = handler }

  -- The decorated functions, in their order.
  abbrev pub routes : List Route
  routes =
      on get "/" (answer "CAPE Agent!")
      ∷ on get "/status" get_status
      ∷ on post "/status" (put_status sys)
      ∷ on get "/logs" (answer "Agent logs")
      ∷ on get "/system" (answer "System")
      ∷ on get "/environ" (answer "Environment variables")
      ∷ on get "/path" (answer "Agent path")
      ∷ on post "/mkdir" (do_mkdir sys)
      ∷ on get "/mktemp" (do_mktemp sys)
      ∷ on post "/mktemp" (do_mktemp sys)
      ∷ on get "/mkdtemp" (do_mkdtemp sys)
      ∷ on post "/mkdtemp" (do_mkdtemp sys)
      ∷ on post "/store" (do_store sys)
      ∷ on post "/retrieve" (do_retrieve sys)
      ∷ on post "/extract" (do_extract sys)
      ∷ on post "/remove" (do_remove sys)
      ∷ on post "/execute" (do_execute sys)
      ∷ on post "/execpy" (do_execpy sys)
      ∷ on get "/pinning" (do_pinning sys)
      ∷ on get "/kill" do_kill
      ∷ []

  -- The first route of the method whose path matches.
  unfoldable pub dispatch : List Route → Request → State → Response × State
  dispatch [] r s = (error 404 "Route not found", s)
  dispatch (route ∷ rest) r s =
      let later = dispatch rest r s in
      if same_method route.method r.method && str_eq route.path r.path
      then route.handler r s
      else later

  -- The guest's own analyzer may report a status, although the agent is pinned.
  abbrev pub is_report : Request → Bool
  is_report r =
      str_eq r.client_ip "127.0.0.1" && (str_eq r.path "/status" && same_method r.method post)

  unfoldable pub is_allowed : Option String → Request → Bool
  is_allowed none r = true
  is_allowed (some ip) r = str_eq r.client_ip ip || is_report r

  unfoldable pub handle : Request → State → Response × State
  handle r s = if is_allowed s.client_ip r then dispatch routes r s else (dropped, s)

  -- The state after requests, one after the other: the server has one thread.
  unfoldable pub serve : List Request → State → State
  serve [] s = s
  serve (r ∷ rs) s = serve rs (handle r s).1
