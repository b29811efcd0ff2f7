-- ===== src/Boot/Hooks.antt =====
-- The service tables of BootLaunchApp.c: the hooks and their removal.
-- A service is its address in the table. The checksum of a table is CalculateCrc32's, a parameter.
use apple_silicon_platforms.Prelude.{ℕ, List, [], ◌∷◌}
use mathlib.Core.Logic.{ite}
use native.Mathlib.Decide.{ℕ_discrete}

-- The services of the boot services table that are hooked, and the others by their place
pub data BootField : Type 0 where
  allocate_pages free_pages get_memory_map allocate_pool handle_protocol : BootField
  locate_protocol open_protocol locate_handle_buffer locate_device_path : BootField
  create_event set_timer wait_for_event set_watchdog_timer load_image : BootField
  start_image install_configuration_table exit free_pool locate_handle : BootField
  stall close_event signal_event check_event create_event_ex : BootField
  close_protocol register_protocol_notify install_protocol_interface : BootField
  connect_controller exit_boot_services : BootField
  other_boot_service : ℕ → BootField

-- The same for the runtime services table
pub data RuntimeField : Type 0 where
  get_variable set_variable get_next_variable_name query_variable_info : RuntimeField
  get_time set_time get_wakeup_time : RuntimeField
  other_runtime_service : ℕ → RuntimeField

unfoldable pub BootField-discrete : Discrete BootField
BootField-discrete = hlevel (ℕ_discrete)

unfoldable pub RuntimeField-discrete : Discrete RuntimeField
RuntimeField-discrete = hlevel (ℕ_discrete)

-- A table of services with its CRC32 field, and the saved originals of its services
pub record ServiceTable (F : Type 0) : Type 0 where
  pub entry : F → ℕ
  pub crc : ℕ
  pub saved : F → ℕ

-- gBS and gRT
pub record Tables : Type 0 where
  pub boot : ServiceTable BootField
  pub runtime : ServiceTable RuntimeField

-- The tracing functions' addresses, and the checksum of a table whose CRC32 field is 0
pub record Tracers : Type 0 where
  pub trace_boot : BootField → ℕ
  pub trace_runtime : RuntimeField → ℕ
  pub boot_crc32 : (BootField → ℕ) → ℕ
  pub runtime_crc32 : (RuntimeField → ℕ) → ℕ

-- The HOOK lines, in their order
abbrev pub hooked_boot_fields : List BootField
hooked_boot_fields =
    allocate_pages ∷ free_pages ∷ get_memory_map ∷ allocate_pool ∷ handle_protocol ∷ locate_protocol
    ∷ open_protocol ∷ locate_handle_buffer ∷ locate_device_path ∷ create_event ∷ set_timer
    ∷ wait_for_event ∷ set_watchdog_timer ∷ load_image ∷ start_image ∷ install_configuration_table
    ∷ exit ∷ free_pool ∷ locate_handle ∷ stall ∷ close_event ∷ signal_event ∷ check_event
    ∷ create_event_ex ∷ close_protocol ∷ register_protocol_notify ∷ install_protocol_interface
    ∷ connect_controller ∷ exit_boot_services ∷ []

abbrev pub hooked_runtime_fields : List RuntimeField
hooked_runtime_fields =
    get_variable ∷ set_variable ∷ get_next_variable_name ∷ query_variable_info ∷ get_time ∷ set_time
    ∷ get_wakeup_time ∷ []

module _ {F : Type 0} (same : Discrete F) where
  -- A write to one place of a table
  unfoldable pub update_at : (F → ℕ) → F → ℕ → F → ℕ
  update_at table f v g = ite (same f g) v (table g)

  -- HOOK
  unfoldable pub hook : (F → ℕ) → F → ServiceTable F → ServiceTable F
  hook trace f t = record t {
    saved = update_at t.saved f (t.entry f);
    entry = update_at t.entry f (trace f);
  }

  -- UNHOOK
  unfoldable pub unhook : F → ServiceTable F → ServiceTable F
  unhook f t = record t { entry = update_at t.entry f (t.saved f) }

  -- The lines of InstallHooks and of RemoveHooks for one table
  unfoldable pub hook_each : (F → ℕ) → List F → ServiceTable F → ServiceTable F
  hook_each trace [] t = t
  hook_each trace (f ∷ fs) t = hook_each trace fs (hook trace f t)

  unfoldable pub unhook_each : List F → ServiceTable F → ServiceTable F
  unhook_each [] t = t
  unhook_each (f ∷ fs) t = unhook_each fs (unhook f t)

module _ (tracers : Tracers) where
  -- FixCrc
  unfoldable pub fix_crc : Tables → Tables
  fix_crc t = record {
    boot = record t.boot { crc = tracers.boot_crc32 t.boot.entry };
    runtime = record t.runtime { crc = tracers.runtime_crc32 t.runtime.entry };
  }

  -- InstallHooks
  unfoldable pub install_hooks : Tables → Tables
  install_hooks t = fix_crc (record {
    boot = hook_each BootField-discrete tracers.trace_boot hooked_boot_fields t.boot;
    runtime = hook_each RuntimeField-discrete tracers.trace_runtime hooked_runtime_fields t.runtime;
  })

  -- RemoveHooks
  unfoldable pub remove_hooks : Tables → Tables
  remove_hooks t = fix_crc (record {
    boot = unhook_each BootField-discrete hooked_boot_fields t.boot;
    runtime = unhook_each RuntimeField-discrete hooked_runtime_fields t.runtime;
  })
