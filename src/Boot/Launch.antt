-- ===== src/Boot/Launch.antt =====
-- BuildPathFromShellArg and BootLaunchAppEntry of BootLaunchApp.c.
-- A wide string is the list of its characters, without the NUL. A device path is the handle that it
-- was built for. The services and the started image are parameters.
use apple_silicon_platforms.Prelude.{
  ℕ, Bool, true, false, Option, none, some, List, [], ◌∷◌, if◌then◌else◌, ◌==◌, ◌||◌, ◌&&◌, leb,
}
use apple_silicon_platforms.Platform.Status.{Status, invalid_parameter, not_found, is_error}
use apple_silicon_platforms.Boot.Hooks.{Tables, Tracers, start_image, install_hooks, remove_hooks}

abbrev pub WideString : Type 0
WideString = List ℕ

-- What the application does, newest first. An image is started through the service at an address.
pub data LaunchEvent : Type 0 where
  path_allocated path_freed image_loaded image_started : ℕ → LaunchEvent
  handles_allocated handles_freed load_options_cleared exit_data_freed : LaunchEvent

pub record LaunchFirmware : Type 0 where
  -- HandleProtocol for the shell's parameters: Argv; none is an error
  pub shell_parameters : Option (List WideString)
  -- LocateHandleBuffer for the simple file system; none is an error
  pub file_system_handles : Option (List ℕ)
  -- FileDevicePath gives a path
  pub file_device_path : ℕ → WideString → Bool
  -- LocateDevicePath for that path; none is an error
  pub locate_device_path : ℕ → WideString → Option ℕ
  -- LoadImage, and HandleProtocol for the loaded image
  pub load_image_status : ℕ → Status
  pub loaded_image_status : ℕ → Status
  -- StartImage, which runs the image with the tables as they are, and ExitDataSize where ExitData
  -- is not NULL
  pub run_image : ℕ → Tables → Status × Tables
  pub exit_data_size : Option ℕ

-- The tables, mFailuresOnly, and what was done
pub record LaunchState : Type 0 where
  pub tables : Tables
  pub failures_only : Bool
  pub events : List LaunchEvent

abbrev pub noted : LaunchEvent → LaunchState → LaunchState
noted e st = record st { events = e ∷ st.events }

-- StrCmp gives 0
unfoldable pub is_same_string : WideString → WideString → Bool
is_same_string [] [] = true
is_same_string [] (d ∷ ds) = false
is_same_string (c ∷ cs) [] = false
is_same_string (c ∷ cs) (d ∷ ds) = c == d && is_same_string cs ds

-- L"-q"
abbrev pub quiet_option : WideString
quiet_option = 0x2D ∷ 0x71 ∷ []

-- The loop over the options
unfoldable pub has_quiet_option : List WideString → Bool
has_quiet_option [] = false
has_quiet_option (arg ∷ args) = is_same_string arg quiet_option || has_quiet_option args

-- FileName from the first backslash on
unfoldable pub skip_to_backslash : WideString → WideString
skip_to_backslash [] = []
skip_to_backslash (c ∷ cs) = if c == 0x5C then c ∷ cs else skip_to_backslash cs

-- An error or another handle is not the volume's own path.
unfoldable pub is_own_path : Option ℕ → ℕ → Bool
is_own_path none h = false
is_own_path (some found) h = found == h

module _ (w : LaunchFirmware) where
  -- The loop of BuildPathFromShellArg over the volumes
  unfoldable pub try_volumes : WideString → List ℕ → LaunchState → Option ℕ × LaunchState
  try_volumes name [] st = (none, noted handles_freed st)
  try_volumes name (h ∷ hs) st = elim (w.file_device_path h name) [
    | false ↦ try_volumes name hs st
    | true ↦ elim (is_own_path (w.locate_device_path h name) h) [
      | true ↦ (some h, noted handles_freed (noted (path_allocated h) st))
      | false ↦ try_volumes name hs (noted (path_freed h) (noted (path_allocated h) st))
    ]
  ]

  -- BuildPathFromShellArg
  unfoldable pub build_path_from_shell_arg : WideString → LaunchState → Option ℕ × LaunchState
  build_path_from_shell_arg arg st = elim (skip_to_backslash arg) [
    | [] ↦ (none, st)
    | c ∷ cs ↦ elim w.file_system_handles [
      | none ↦ (none, st)
      | some hs ↦ try_volumes (c ∷ cs) hs (noted handles_allocated st)
    ]
  ]

  -- ExitData != NULL and ExitDataSize >= sizeof (CHAR16)
  unfoldable pub free_exit_data : LaunchState → LaunchState
  free_exit_data st = elim w.exit_data_size [
    | none ↦ st
    | some size ↦ if leb 2 size then noted exit_data_freed st else st
  ]

  -- BootLaunchAppEntry from the loaded image on
  unfoldable pub start_traced : Tracers → ℕ → LaunchState → Status × LaunchState
  start_traced tracers h st =
      let cleared =
        if is_error (w.loaded_image_status h) then st else noted load_options_cleared st in
      let hooked = install_hooks tracers st.tables in
      let ran = w.run_image (hooked.boot.saved start_image) hooked in
      (
        ran.0,
        noted (path_freed h) (
            free_exit_data (record cleared {
              tables = remove_hooks tracers ran.1;
              events = image_started (hooked.boot.saved start_image) ∷ cleared.events;
            })),
      )

  -- BootLaunchAppEntry behind BuildPathFromShellArg
  unfoldable pub launch : Tracers → Option ℕ × LaunchState → Status × LaunchState
  launch tracers (none, st) = (not_found, st)
  launch tracers (some h, st) =
      if is_error (w.load_image_status h)
      then (w.load_image_status h, noted (path_freed h) st)
      else start_traced tracers h (noted (image_loaded h) st)

  -- BootLaunchAppEntry behind HandleProtocol; Argc is the length of Argv
  unfoldable pub launch_arguments : Tracers → List WideString → LaunchState → Status × LaunchState
  launch_arguments tracers [] st = (invalid_parameter, st)
  launch_arguments tracers (name ∷ []) st = (invalid_parameter, st)
  launch_arguments tracers (name ∷ path ∷ options) st = launch tracers (
      build_path_from_shell_arg path
        (record st { failures_only = st.failures_only || has_quiet_option options }))

  -- BootLaunchAppEntry
  unfoldable pub boot_launch_app_entry : Tracers → LaunchState → Status × LaunchState
  boot_launch_app_entry tracers st = elim w.shell_parameters [
    | none ↦ (invalid_parameter, st)
    | some argv ↦ launch_arguments tracers argv st
  ]
