-- ===== src/GuestManager/Start/Order.antt =====
-- The order of the requests of `GuestManager.start_analysis` of lib/cuckoo/core/guest.py.
use capev.Base.{
  Bool, Bool-cases, inl, inr, List, [], ◌∷◌, ◌++◌, Option, none, some, str_eq, true, false, ◌||◌,
  ◌≡◌, refl, ap, ◌⊎◌, ◌==◌,
}
use capev.Base.Bytes.{codes, same_bytes}
use capev.Database.Guests.{guest_get_status, guest_set_status}
use capev.Scheduler.Exec.{ok, external, ◌>>=◌, ◌>>◌}
use capev.GuestManager.Wait.{available, wait_available, is_status}
use capev.GuestManager.Start.{
  contact, determine_analyzer_path, determine_system_drive, determine_temp_path, environ, Env,
  extract, has_feature, is_windows, lookup, make_directory, mkdir, mkdtemp, Options, pinning, probe,
  run_analyzer, send, start_analysis, store, Text, upload_analyzer, upload_sample,
  upload_support_file, upload_support_files, World, pin, debug_loop,
}
use capev.GuestManager.Start.Follows.{
  Any, bind-Follows, block-Follows, external-Follows, Follows, pure-Follows, raised-Follows,
  send-Follows,
}
use capev.GuestManager.Start.Plan.{
  or_none, system_drive, temp_path, directory_of, analyzer_path, sample_requests, support_request,
  support_requests, pin_requests, plan,
}

module _ (e : Env) (o : Options) where
  -- A value of the environment, which is the one that the plan names.
  lookup-Follows :
      (t : Option Text) (w : World) → Follows (λ a. a ≡ or_none e o t) w [] (lookup e o t w)
  lookup-Follows none w = raised-Follows _ w _
  lookup-Follows (some t) w = pure-Follows _ w t refl

  drive-Follows :
      (w : World) → Follows (λ a. a ≡ (system_drive e o)) w [] (determine_system_drive e o w)
  unfolding determine_system_drive
  drive-Follows w = elim (Bool-cases (is_windows e o)) [
    | inl d ↦ rw d (
        bind-Follows (λ a. a ≡ or_none e o (e.getenv "SYSTEMDRIVE")) _ w [] [] _ _
          (lookup-Follows (e.getenv "SYSTEMDRIVE") w)
          (λ a w' h. pure-Follows _ w' _ (ap (λ t. t ++ codes "/") h)))
    | inr d ↦ rw d (pure-Follows _ w _ refl)
  ]

  temp-Follows : (w : World) → Follows (λ a. a ≡ (temp_path e o)) w [] (determine_temp_path e o w)
  unfolding determine_temp_path
  temp-Follows w = elim (Bool-cases (is_windows e o)) [
    | inl d ↦ rw d (lookup-Follows (e.getenv "TEMP") w)
    | inr d ↦ rw d (pure-Follows _ w _ refl)
  ]

  directory-Follows :
      (analpath : Option Text) (drive : Text) (w : World)
      → drive ≡ (system_drive e o)
      → Follows
          (λ a. a ≡ (directory_of e o analpath).0)
          w
          ((directory_of e o analpath).1 ∷ [])
          (make_directory e o analpath drive w)
  directory-Follows none drive w h = rw h (
      bind-Follows Any _ w (mkdtemp (system_drive e o) ∷ []) [] _ _ (send-Follows e o _ w)
        (λ a w' t. pure-Follows _ w' _ refl))
  directory-Follows (some []) drive w h = rw h (
      bind-Follows Any _ w (mkdtemp (system_drive e o) ∷ []) [] _ _ (send-Follows e o _ w)
        (λ a w' t. pure-Follows _ w' _ refl))
  directory-Follows (some (c ∷ cs)) drive w h = rw h (
      bind-Follows Any _ w (mkdir ((system_drive e o) ++ (c ∷ cs)) ∷ []) [] _ _
        (send-Follows e o _ w) (λ a w' t. pure-Follows _ w' _ refl))

  path-Follows :
      (w : World)
      → Follows
          (λ a. a ≡ (analyzer_path e o))
          w
          ((directory_of e o o.analpath).1 ∷ [])
          (determine_analyzer_path e o w)
  unfolding determine_analyzer_path
  path-Follows w =
      bind-Follows _ _ w [] ((directory_of e o o.analpath).1 ∷ []) _ _ (drive-Follows w)
        (λ a w' h. directory-Follows o.analpath a w' h)

  upload_analyzer-Follows :
      (w : World)
      → Follows
          (λ a. a ≡ (analyzer_path e o))
          w
          ((directory_of e o o.analpath).1 ∷ extract (analyzer_path e o) ∷ [])
          (upload_analyzer e o w)
  unfolding upload_analyzer
  upload_analyzer-Follows w =
      bind-Follows Any _ w [] _ _ _ (external-Follows e.zip_error w) (λ _ w'. λ _.
        bind-Follows _ _ w' ((directory_of e o o.analpath).1 ∷ [])
          (extract (analyzer_path e o) ∷ []) _ _ (path-Follows w')
          (λ a v h. rw h (
            bind-Follows Any _ v (extract (analyzer_path e o) ∷ []) [] _ _ (send-Follows e o _ v)
              (λ _ u _. pure-Follows _ u _ refl))))

  -- A file of the host is opened and sent to the temporary directory.
  file-Follows :
      (source name : Text) (w : World)
      → Follows Any w (store (e.join (temp_path e o) name) ∷ []) (
          (do
            temp ← determine_temp_path e o
            external (e.open_error source)
            send e o (store (e.join temp name)))
            w)
  file-Follows source name w = bind-Follows _ _ w [] _ _ _ (temp-Follows w) (λ a w' h. rw h (
      bind-Follows Any _ w' [] _ _ _ (external-Follows (e.open_error source) w')
        (λ _ v _. send-Follows e o _ v)))

  upload_sample-Follows : (w : World) → Follows Any w (sample_requests e o) (upload_sample e o w)
  unfolding upload_sample
  upload_sample-Follows w =
      elim (Bool-cases (str_eq o.category "file" || str_eq o.category "archive")) [
        | inl c ↦ rw c (file-Follows o.target o.file_name w)
        | inr c ↦ rw c (pure-Follows Any w tt tt)
      ]

  support_file-Follows :
      (f : Text × Text) (w : World)
      → Follows Any w (support_request e o f) (upload_support_file e o f w)
  support_file-Follows (directory, name) w =
      elim (Bool-cases (same_bytes (e.join directory name) o.target)) [
        | inl c ↦ rw c (pure-Follows Any w tt tt)
        | inr c ↦ rw c (file-Follows (e.join directory name) name w)
      ]

  support-Follows :
      (files : List (Text × Text)) (w : World)
      → Follows Any w (support_requests e o files) (upload_support_files e o files w)
  unfolding upload_support_files
  support-Follows [] w = pure-Follows Any w tt tt
  support-Follows (f ∷ files) w =
      bind-Follows Any Any w (support_request e o f) (support_requests e o files) _ _
        (support_file-Follows f w) (λ _ w' _. support-Follows files w')

  pin-Follows :
      (features : List Text) (w : World)
      → Follows Any w (pin_requests e o features) (pin e o features w)
  pin-Follows features w = elim (Bool-cases (has_feature e o "pinning" features)) [
    | inl c ↦ rw c (send-Follows e o pinning w)
    | inr c ↦ rw c (pure-Follows Any w tt tt)
  ]

  debug-Follows : (b : Bool) (w : World) → Follows Any w [] (debug_loop e o b w)
  debug-Follows true w = block-Follows w
  debug-Follows false w = pure-Follows Any w tt tt

  run_analyzer-Follows :
      (features : List Text) (w : World)
      → Follows Any w (plan e o features) (run_analyzer e o features w)
  unfolding run_analyzer
  run_analyzer-Follows features w =
      bind-Follows Any Any w (pin_requests e o features) _ _ _ (pin-Follows features w) (λ _ w1 _.
        bind-Follows Any Any w1 (environ ∷ []) _ _ _ (send-Follows e o environ w1) (λ _ w2 _.
          bind-Follows _ Any w2 ((directory_of e o o.analpath).1 ∷ extract (analyzer_path e o) ∷ [])
            _ _ _ (upload_analyzer-Follows w2)
            (λ path w3 h. rw h (
              bind-Follows Any Any w3
                (store (e.join (analyzer_path e o) (codes "analysis.conf")) ∷ []) _ _ _
                (send-Follows e o _ w3)
                (λ _ w4 _.
                  bind-Follows Any Any w4 (sample_requests e o) _ _ _ (upload_sample-Follows w4)
                    (λ _ w5 _.
                      bind-Follows Any Any w5 (support_requests e o e.support) _ _ _
                        (support-Follows e.support w5)
                        (λ _ w6 _.
                          bind-Follows Any Any w6 [] _ _ _ (debug-Follows e.debugged w6)
                            (λ _ w7 _. send-Follows e o _ w7))))))))

  -- If the guest has become available, stop was not called, the guest is still starting, and the
  -- agent answers with status code 200 and a list of features, then the requests that
  -- start_analysis sends are the first ones of a fixed plan, in its order: the probe, the pinning
  -- if the agent has it, the environment, the directory, the analyzer, its configuration, the
  -- sample and the supporting files, and last the request that starts the analyzer. The table
  -- guests is unchanged, and where start_analysis returns the whole plan has been sent.
  pub start_analysis-Follows :
      (features : List Text) (w : World)
      → wait_available e.task_id e.end e.attempts ≡ available
      → e.do_run ≡ true
      → is_status "starting" (guest_get_status e.get_faults e.task_id w.guests) ≡ true
      → e.status_code ≡ 200
      → e.features ≡ some features
      → Follows Any w (probe ∷ plan e o features) (start_analysis e o w)
  unfolding start_analysis contact
  start_analysis-Follows features w a d s c f = rw a (
      rw d (
        rw s (
          bind-Follows Any Any w (probe ∷ []) _ _ _ (send-Follows e o probe w)
            (λ _ w' _. rw c (rw f (run_analyzer-Follows features w'))))))

  -- What the agent says cannot be used.
  abbrev pub IsUnusable : Type 0
  IsUnusable = ((e.status_code == 200) ≡ false) ⊎ (e.features ≡ none)

  -- If the guest has become available, stop was not called, the guest is still starting, and the
  -- probe is answered, but with another status code than 200 or with no readable list of features,
  -- then start_analysis returns, has sent nothing but the probe, and has set the status of the
  -- guest to failed.
  pub start_analysis_fails :
      (w : World)
      → wait_available e.task_id e.end e.attempts ≡ available
      → e.do_run ≡ true
      → is_status "starting" (guest_get_status e.get_faults e.task_id w.guests) ≡ true
      → e.answer probe ≡ none
      → IsUnusable
      → start_analysis e o w ≡ (
        ok tt,
        record {
          guests = guest_set_status e.set_faults e.task_id "failed" w.guests;
          sent = w.sent ++ (probe ∷ []);
        },
      )
  unfolding start_analysis contact
  start_analysis_fails w a d s p (inl c) = rw a (rw d (rw s (rw p (rw c))))
  start_analysis_fails w a d s p (inr f) = elim (Bool-cases (e.status_code == 200)) [
    | inl c ↦ rw a (rw d (rw s (rw p (rw c (rw f)))))
    | inr c ↦ rw a (rw d (rw s (rw p (rw c))))
  ]
