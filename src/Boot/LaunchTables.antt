-- ===== src/Boot/LaunchTables.antt =====
-- BootLaunchApp.c from its entry to its end: the service tables.
use apple_silicon_platforms.Prelude.{
  ℕ, ◌≡◌, refl, sym, ap, ◌∙◌, Bool, true, false, Option, none, some, List, [], ◌∷◌, inl, inr, leb,
  ◌||◌, Bool-cases, Option-cases,
}
use mathlib.Core.Path.{subst}
use apple_silicon_platforms.Platform.Status.{Status, invalid_parameter, is_error}
use apple_silicon_platforms.Boot.Hooks.{Tables, Tracers, install_hooks, remove_hooks}
use apple_silicon_platforms.Boot.Unhooked.{IsLeftBy, remove_hooks-install_hooks}
use apple_silicon_platforms.Boot.Launch.{
  WideString, path_allocated, path_freed, image_loaded, handles_allocated, handles_freed,
  LaunchFirmware, LaunchState, noted, skip_to_backslash, is_own_path, has_quiet_option, try_volumes,
  build_path_from_shell_arg, free_exit_data, start_traced, launch, launch_arguments,
  boot_launch_app_entry,
}

-- The services of both tables, and their checksums.
pub record IsSameAs (t t' : Tables) : Type 0 where
  pub boot : t.boot.entry ≡ t'.boot.entry
  pub runtime : t.runtime.entry ≡ t'.runtime.entry
  pub boot_crc : t.boot.crc ≡ t'.boot.crc
  pub runtime_crc : t.runtime.crc ≡ t'.runtime.crc

-- The checksums of both tables are right.
pub record IsChecked (tracers : Tracers) (t : Tables) : Type 0 where
  pub boot : t.boot.crc ≡ tracers.boot_crc32 t.boot.entry
  pub runtime : t.runtime.crc ≡ tracers.runtime_crc32 t.runtime.entry

unchanged : {t t' : Tables} → t ≡ t' → IsSameAs t t'
unchanged e = record {
  boot = ap (λ x. x.boot.entry) e;
  runtime = ap (λ x. x.runtime.entry) e;
  boot_crc = ap (λ x. x.boot.crc) e;
  runtime_crc = ap (λ x. x.runtime.crc) e;
}

put_back :
    (tracers : Tracers) (t left : Tables)
    → IsLeftBy (install_hooks tracers t) left
    → IsChecked tracers t
    → IsSameAs (remove_hooks tracers left) t
put_back tracers t left kept checked =
    let (boot, runtime, boot_crc, runtime_crc) = remove_hooks-install_hooks tracers t left kept in
    record {
      boot = boot;
      runtime = runtime;
      boot_crc = boot_crc ∙ sym checked.boot;
      runtime_crc = runtime_crc ∙ sym checked.runtime;
    }

module _ (w : LaunchFirmware) where
  try_volumes-tables :
      (name : WideString) (hs : List ℕ) (st : LaunchState)
      → (try_volumes w name hs st).1.tables ≡ st.tables
  unfolding try_volumes
  try_volumes-tables name [] st = refl
  try_volumes-tables name (h ∷ hs) st =
      pick (w.file_device_path h name) (is_own_path (w.locate_device_path h name) h)
        (try_volumes-tables name hs st) (try_volumes-tables name hs freed)
    where
      freed : LaunchState
      freed = noted (path_freed h) (noted (path_allocated h) st)

      pick :
          (path own : Bool)
          → (try_volumes w name hs st).1.tables ≡ st.tables
          → (try_volumes w name hs freed).1.tables ≡ st.tables
          → (elim path as (λ _. Option ℕ × LaunchState) [
            | false ↦ try_volumes w name hs st
            | true ↦ elim own [
              | true ↦ (some h, noted handles_freed (noted (path_allocated h) st))
              | false ↦ try_volumes w name hs freed
            ]
          ]).1.tables
            ≡ st.tables
      pick false own skipped kept = skipped
      pick true false skipped kept = kept
      pick true true skipped kept = refl

  build_path-tables :
      (arg : WideString) (st : LaunchState)
      → (build_path_from_shell_arg w arg st).1.tables ≡ st.tables
  unfolding build_path_from_shell_arg
  build_path-tables arg st = pick (skip_to_backslash arg) w.file_system_handles
    where
      pick :
          (name : WideString) (o : Option (List ℕ))
          → (elim name as (λ _. Option ℕ × LaunchState) [
            | [] ↦ (none, st)
            | c ∷ cs ↦ elim o [
              | none ↦ (none, st)
              | some hs ↦ try_volumes w (c ∷ cs) hs (noted handles_allocated st)
            ]
          ]).1.tables
            ≡ st.tables
      pick [] o = refl
      pick (c ∷ cs) none = refl
      pick (c ∷ cs) (some hs) = try_volumes-tables (c ∷ cs) hs (noted handles_allocated st)

  free_exit_data-tables : (st : LaunchState) → (free_exit_data w st).tables ≡ st.tables
  unfolding free_exit_data
  free_exit_data-tables st = elim (Option-cases w.exit_data_size) [
    | inl e ↦ rw e refl
    | inr (size, e) ↦ elim (Bool-cases (leb 2 size)) [
      | inl f ↦ rw e (rw f refl)
      | inr f ↦ rw e (rw f refl)
    ]
  ]

  module _ (tracers : Tracers) (kept : (a : ℕ) (t : Tables) → IsLeftBy t (w.run_image a t).1) where
    start_traced-tables :
        (h : ℕ) (st : LaunchState)
        → IsChecked tracers st.tables
        → IsSameAs (start_traced w tracers h st).1.tables st.tables
    unfolding start_traced
    start_traced-tables h st checked =
        subst (λ t. IsSameAs t st.tables) (sym (free_exit_data-tables _))
          (put_back tracers st.tables _ (kept _ _) checked)

    launch-tables :
        (r : Option ℕ × LaunchState)
        → IsChecked tracers r.1.tables
        → IsSameAs (launch w tracers r).1.tables r.1.tables
    unfolding launch
    launch-tables (none, st) checked = unchanged refl
    launch-tables (some h, st) checked = elim (Bool-cases (is_error (w.load_image_status h))) [
      | inl e ↦ rw e (unchanged refl)
      | inr e ↦ rw e (start_traced-tables h (noted (image_loaded h) st) checked)
    ]

    launch_arguments-tables :
        (argv : List WideString) (st : LaunchState)
        → IsChecked tracers st.tables
        → IsSameAs (launch_arguments w tracers argv st).1.tables st.tables
    unfolding launch_arguments
    launch_arguments-tables [] st checked = unchanged refl
    launch_arguments-tables (name ∷ []) st checked = unchanged refl
    launch_arguments-tables (name ∷ path ∷ options) st checked =
        let r =
          build_path_from_shell_arg w path
            (record st { failures_only = st.failures_only || has_quiet_option options }) in
        subst (λ t. IsChecked tracers t → IsSameAs (launch w tracers r).1.tables t)
          (build_path-tables path _) (launch-tables r) checked

    -- BootLaunchAppEntry leaves both service tables as it has found them, checksums included, on
    -- every way out, also behind an image that was started with the tables hooked: where the
    -- checksums were right before, and any image leaves alone the saved originals and the services
    -- that are not hooked.
    pub boot_launch_app_entry-tables :
        (st : LaunchState)
        → IsChecked tracers st.tables
        → IsSameAs (boot_launch_app_entry w tracers st).1.tables st.tables
    unfolding boot_launch_app_entry
    boot_launch_app_entry-tables st checked = pick w.shell_parameters
      where
        pick :
            (o : Option (List WideString))
            → IsSameAs
                (elim o as (λ _. Status × LaunchState) [
                  | none ↦ (invalid_parameter, st)
                  | some argv ↦ launch_arguments w tracers argv st
                ]).1.tables
                st.tables
        pick none = unchanged refl
        pick (some argv) = launch_arguments-tables argv st checked
