-- ===== src/GuestManager/Start/Plan.antt =====
-- lib/cuckoo/core/guest.py: the requests that `GuestManager.start_analysis` means to send.
use capev.Base.{if◌then◌else◌, List, [], ◌∷◌, ◌++◌, Option, none, some, str_eq, ◌||◌}
use capev.Base.Bytes.{codes, same_bytes}
use capev.GuestManager.Start.{
  environ, Env, extract, has_feature, is_windows, mkdir, mkdtemp, Options, pinning, Request,
  start_request, store, Text,
}

module _ (e : Env) (o : Options) where
  -- The values that the plan names; where the environment has none, the plan stops before it.
  abbrev pub or_none : Option Text → Text
  or_none none = []
  or_none (some t) = t

  abbrev pub system_drive : Text
  system_drive = if is_windows e o then or_none (e.getenv "SYSTEMDRIVE") ++ codes "/" else codes "/"

  abbrev pub temp_path : Text
  temp_path = if is_windows e o then or_none (e.getenv "TEMP") else codes "/tmp"

  abbrev pub directory_of : Option Text → Text × Request
  directory_of none = (e.dirpath, mkdtemp system_drive)
  directory_of (some []) = (e.dirpath, mkdtemp system_drive)
  directory_of (some (c ∷ cs)) = (system_drive ++ (c ∷ cs), mkdir (system_drive ++ (c ∷ cs)))

  abbrev pub analyzer_path : Text
  analyzer_path = (directory_of o.analpath).0

  abbrev pub sample_requests : List Request
  sample_requests =
      if str_eq o.category "file" || str_eq o.category "archive"
      then store (e.join temp_path o.file_name) ∷ []
      else []

  abbrev pub support_request : Text × Text → List Request
  support_request (directory, name) =
      if same_bytes (e.join directory name) o.target then [] else store (e.join temp_path name) ∷ []

  abbrev pub support_requests : List (Text × Text) → List Request
  support_requests [] = []
  support_requests (f ∷ files) = support_request f ++ support_requests files

  abbrev pub pin_requests : List Text → List Request
  pin_requests features = if has_feature e o "pinning" features then pinning ∷ [] else []

  -- The analyzer, its configuration and all files are sent before the analyzer is started.
  abbrev pub plan : List Text → List Request
  plan features =
      pin_requests features
      ++ (environ
          ∷ (directory_of o.analpath).1
          ∷ extract analyzer_path
          ∷ store (e.join analyzer_path (codes "analysis.conf"))
          ∷ (sample_requests
              ++ (support_requests e.support ++ (start_request e o features analyzer_path ∷ []))))
