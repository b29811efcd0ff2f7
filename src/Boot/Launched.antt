-- ===== src/Boot/Launched.antt =====
-- BootLaunchApp.c from its entry to its end: the pools it frees and the tables it leaves.
use apple_silicon_platforms.Prelude.{
  ℕ, Bool, true, false, Option, none, some, List, [], ◌∷◌, inl, inr, if◌then◌else◌, leb, Bool-cases,
  Option-cases,
}
use apple_silicon_platforms.Platform.Status.{Status, invalid_parameter, is_error}
use apple_silicon_platforms.Boot.Hooks.{Tracers}
use apple_silicon_platforms.Boot.Launch.{
  WideString, LaunchEvent, path_allocated, path_freed, image_loaded, image_started,
  handles_allocated, handles_freed, load_options_cleared, exit_data_freed, LaunchFirmware,
  LaunchState, noted, skip_to_backslash, is_own_path, try_volumes, build_path_from_shell_arg,
  free_exit_data, start_traced, launch, launch_arguments, boot_launch_app_entry,
}

-- What is allocated and not freed yet, behind events that free nothing else: the device path of a
-- handle, if any, and whether the buffer of handles is. An image is loaded from the path that is held.
pub data Holds : Option ℕ → Bool → List LaunchEvent → Type 0 where
  nothing : Holds none false []
  path_taken :
      (h : ℕ) {b : Bool} {es : List LaunchEvent}
      → Holds none b es
      → Holds (some h) b (path_allocated h ∷ es)
  path_given :
      (h : ℕ) {b : Bool} {es : List LaunchEvent}
      → Holds (some h) b es
      → Holds none b (path_freed h ∷ es)
  handles_taken :
      {p : Option ℕ} {es : List LaunchEvent}
      → Holds p false es
      → Holds p true (handles_allocated ∷ es)
  handles_given :
      {p : Option ℕ} {es : List LaunchEvent} → Holds p true es → Holds p false (handles_freed ∷ es)
  loading :
      (h : ℕ) {b : Bool} {es : List LaunchEvent}
      → Holds (some h) b es
      → Holds (some h) b (image_loaded h ∷ es)
  starting :
      (a : ℕ) {p : Option ℕ} {b : Bool} {es : List LaunchEvent}
      → Holds p b es
      → Holds p b (image_started a ∷ es)
  clearing :
      {p : Option ℕ} {b : Bool} {es : List LaunchEvent}
      → Holds p b es
      → Holds p b (load_options_cleared ∷ es)
  exit_data_given :
      {p : Option ℕ} {b : Bool} {es : List LaunchEvent}
      → Holds p b es
      → Holds p b (exit_data_freed ∷ es)

module _ (w : LaunchFirmware) where
  try_volumes-Holds :
      (name : WideString) (hs : List ℕ) (st : LaunchState)
      → Holds none true st.events
      → Holds (try_volumes w name hs st).0 false (try_volumes w name hs st).1.events
  unfolding try_volumes
  try_volumes-Holds name [] st b = handles_given b
  try_volumes-Holds name (h ∷ hs) st b =
      pick (w.file_device_path h name) (is_own_path (w.locate_device_path h name) h)
        (try_volumes-Holds name hs st b) (try_volumes-Holds name hs freed freed-Holds)
    where
      freed : LaunchState
      freed = noted (path_freed h) (noted (path_allocated h) st)

      freed-Holds : Holds none true freed.events
      freed-Holds = path_given h (path_taken h b)

      Good : Option ℕ × LaunchState → Type 0
      Good r = Holds r.0 false r.1.events

      pick :
          (path own : Bool)
          → Good (try_volumes w name hs st)
          → Good (try_volumes w name hs freed)
          → Good (elim path [
            | false ↦ try_volumes w name hs st
            | true ↦ elim own [
              | true ↦ (some h, noted handles_freed (noted (path_allocated h) st))
              | false ↦ try_volumes w name hs freed
            ]
          ])
      pick false own skipped kept = skipped
      pick true false skipped kept = kept
      pick true true skipped kept = handles_given (path_taken h b)

  build_path-Holds :
      (arg : WideString) (st : LaunchState)
      → Holds none false st.events
      → Holds
          (build_path_from_shell_arg w arg st).0
          false
          (build_path_from_shell_arg w arg st).1.events
  unfolding build_path_from_shell_arg
  build_path-Holds arg st b = pick (skip_to_backslash arg) w.file_system_handles
    where
      Good : Option ℕ × LaunchState → Type 0
      Good r = Holds r.0 false r.1.events

      pick :
          (name : WideString) (o : Option (List ℕ))
          → Good (elim name [
            | [] ↦ (none, st)
            | c ∷ cs ↦ elim o [
              | none ↦ (none, st)
              | some hs ↦ try_volumes w (c ∷ cs) hs (noted handles_allocated st)
            ]
          ])
      pick [] o = b
      pick (c ∷ cs) none = b
      pick (c ∷ cs) (some hs) =
          try_volumes-Holds (c ∷ cs) hs (noted handles_allocated st) (handles_taken b)

  free_exit_data-Holds :
      {p : Option ℕ} (st : LaunchState)
      → Holds p false st.events
      → Holds p false (free_exit_data w st).events
  unfolding free_exit_data
  free_exit_data-Holds {p} st b = elim (Option-cases w.exit_data_size) [
    | inl e ↦ rw e b
    | inr (size, e) ↦ elim (Bool-cases (leb 2 size)) [
      | inl f ↦ rw e (rw f (exit_data_given b))
      | inr f ↦ rw e (rw f b)
    ]
  ]

  start_traced-Holds :
      (tracers : Tracers) (h : ℕ) (st : LaunchState)
      → Holds (some h) false st.events
      → Holds none false (start_traced w tracers h st).1.events
  unfolding start_traced
  start_traced-Holds tracers h st b =
      path_given h
        (free_exit_data-Holds _ (starting _ (cleared (is_error (w.loaded_image_status h)))))
    where
      cleared :
          (c : Bool) → Holds (some h) false (if c then st else noted load_options_cleared st).events
      cleared true = b
      cleared false = clearing b

  launch-Holds :
      (tracers : Tracers) (r : Option ℕ × LaunchState)
      → Holds r.0 false r.1.events
      → Holds none false (launch w tracers r).1.events
  unfolding launch
  launch-Holds tracers (none, st) b = b
  launch-Holds tracers (some h, st) b = elim (Bool-cases (is_error (w.load_image_status h))) [
    | inl e ↦ rw e (path_given h b)
    | inr e ↦ rw e (start_traced-Holds tracers h (noted (image_loaded h) st) (loading h b))
  ]

  launch_arguments-Holds :
      (tracers : Tracers) (argv : List WideString) (st : LaunchState)
      → Holds none false st.events
      → Holds none false (launch_arguments w tracers argv st).1.events
  unfolding launch_arguments
  launch_arguments-Holds tracers [] st b = b
  launch_arguments-Holds tracers (name ∷ []) st b = b
  launch_arguments-Holds tracers (name ∷ path ∷ options) st b =
      launch-Holds tracers _ (build_path-Holds path _ b)

  -- BootLaunchAppEntry, begun with no device path and no buffer of handles in hand, ends with none, on
  -- every way out and whatever the services answer: each device path that it or
  -- BuildPathFromShellArg has built is freed, that one and once, before the next is built; the buffer
  -- is freed once; nothing else is freed as a path; and the image is loaded from the path in hand.
  pub boot_launch_app_entry-Holds :
      (tracers : Tracers) (st : LaunchState)
      → Holds none false st.events
      → Holds none false (boot_launch_app_entry w tracers st).1.events
  unfolding boot_launch_app_entry
  boot_launch_app_entry-Holds tracers st b = pick w.shell_parameters
    where
      pick :
          (o : Option (List WideString))
          → Holds none false
              (elim o as (λ _. Status × LaunchState) [
                | none ↦ (invalid_parameter, st)
                | some argv ↦ launch_arguments w tracers argv st
              ]).1.events
      pick none = b
      pick (some argv) = launch_arguments-Holds tracers argv st b
