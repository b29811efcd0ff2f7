-- ===== src/Boot/Tests.antt =====
-- The boot helpers' theorems at concrete inputs: one internal volume with the Windows loader, and an
-- image that is started with one option.
use apple_silicon_platforms.Prelude.{
  ◌≤◌, ◌≡◌, refl, true, false, none, some, [], ◌∷◌, if◌then◌else◌, leb, arith,
}
use apple_silicon_platforms.Platform.Status.{success, not_found}
use apple_silicon_platforms.Boot.AutoBoot.{
  Log, Firmware, BootState, file_system_notify, ready_to_boot,
}
use apple_silicon_platforms.Boot.Tidy.{IsTidy}
use apple_silicon_platforms.Boot.Starts.{begun, after, ready, Reach-IsTidy}
use apple_silicon_platforms.Boot.Notify.{asks, Ended, file_system_notify_lem}
use apple_silicon_platforms.Boot.Exhausts.{Exhausts}
use apple_silicon_platforms.Boot.Hooks.{
  allocate_pages, load_image, start_image, locate_protocol, Tables, Tracers, install_hooks,
  remove_hooks,
}
use apple_silicon_platforms.Boot.Unhooked.{IsLeftBy, remove_hooks-install_hooks}
use apple_silicon_platforms.Boot.Launch.{LaunchFirmware, LaunchState, boot_launch_app_entry}
use apple_silicon_platforms.Boot.Launched.{Holds, nothing, boot_launch_app_entry-Holds}
use apple_silicon_platforms.Boot.Trace.{
  boot_service, Line, Call, traced, exits, Calls, no_call, call_then, Tracing,
}
use apple_silicon_platforms.Boot.LaunchTables.{IsSameAs, boot_launch_app_entry-tables}

-- A volume is new until it was asked for twice.
abbrev internal : Firmware
internal = record {
  block_io_handles = λ log. some (7 ∷ []);
  file_system_handles = λ log. some (7 ∷ []);
  new_handle = λ log. if leb 2 (asks log) then none else some 7;
  block_io = λ h. some (some (record { media_present = true; removable_media = false }));
  file_system = λ h. true;
  open_volume = λ h. true;
  open_loader = λ h. true;
  device_path = λ h. true;
  load_image = λ log h. success;
  loaded_image = λ log h. success;
  start_image = λ log h. not_found;
  create_event = success;
  register_protocol_notify = success;
  create_event_ex = success;
}

abbrev begin : BootState
begin = record { windows_started = false; log = [] }

Reach-IsTidy_example : IsTidy internal (ready_to_boot internal begin)
Reach-IsTidy_example = Reach-IsTidy (after begun (ready begin))

new_handle-dry : (log : Log) → 2 ≤ asks log → internal.new_handle log ≡ none
new_handle-dry log p = ground arith

file_system_notify_lem_example :
    (st' : BootState) × (file_system_notify internal 3 begin ≡ some st') × Ended internal st'
file_system_notify_lem_example =
    file_system_notify_lem internal 2 3 begin refl new_handle-dry (omega arith) (omega arith)

-- The services' addresses are 0 to begin with, a tracing function's is 1, and the checksum is the
-- address of LoadImage.
abbrev one_tracer : Tracers
one_tracer = record {
  trace_boot = λ f. 1;
  trace_runtime = λ f. 1;
  boot_crc32 = λ t. t load_image;
  runtime_crc32 = λ t. 5;
}

abbrev tables : Tables
tables = record {
  boot = record { entry = λ f. 0; crc = 0; saved = λ f. 9 };
  runtime = record { entry = λ f. 0; crc = 5; saved = λ f. 9 };
}

same_tables : (t : Tables) → IsLeftBy t t
same_tables t = record {
  boot = record { saved = λ f. refl; others = λ f e. refl };
  runtime = record { saved = λ f. refl; others = λ f e. refl };
}

remove_hooks-install_hooks_example :
    ((remove_hooks one_tracer (install_hooks one_tracer tables)).boot.entry ≡ tables.boot.entry)
    × ((remove_hooks one_tracer (install_hooks one_tracer tables)).runtime.entry
        ≡ tables.runtime.entry)
    × ((remove_hooks one_tracer (install_hooks one_tracer tables)).boot.crc ≡ 0)
    × ((remove_hooks one_tracer (install_hooks one_tracer tables)).runtime.crc ≡ 5)
remove_hooks-install_hooks_example =
    remove_hooks-install_hooks one_tracer tables (install_hooks one_tracer tables)
      (same_tables (install_hooks one_tracer tables))

-- FS0:\a -q, with two volumes of which the second has the path.
abbrev shell : LaunchFirmware
shell = record {
  shell_parameters = some ([] ∷ (0x46 ∷ 0x53 ∷ 0x5C ∷ 0x61 ∷ []) ∷ (0x2D ∷ 0x71 ∷ []) ∷ []);
  file_system_handles = some (3 ∷ 4 ∷ []);
  file_device_path = λ h name. true;
  locate_device_path = λ h name. some 4;
  load_image_status = λ h. success;
  loaded_image_status = λ h. success;
  run_image = λ a t. (not_found, t);
  exit_data_size = some 4;
}

abbrev launch_state : LaunchState
launch_state = record { tables = tables; failures_only = false; events = [] }

boot_launch_app_entry-Holds_example :
    Holds none false (boot_launch_app_entry shell one_tracer launch_state).1.events
boot_launch_app_entry-Holds_example =
    boot_launch_app_entry-Holds shell one_tracer launch_state nothing

boot_launch_app_entry-tables_example :
    IsSameAs (boot_launch_app_entry shell one_tracer launch_state).1.tables tables
boot_launch_app_entry-tables_example =
    boot_launch_app_entry-tables shell one_tracer (λ a t. same_tables t) launch_state
      (record { boot = refl; runtime = refl })

-- An image that allocates pages and loads another one, which is not found, and exits with data.
abbrev image : Call
image = traced (boot_service start_image) success true (
    call_then (traced (boot_service allocate_pages) success true no_call) (
      call_then (traced (boot_service load_image) not_found true no_call)
        (call_then (exits (some 8) not_found no_call) no_call)))

-- The console looks for a protocol, in vain, for each line.
abbrev console : Line → Calls
console line = call_then (traced (boot_service locate_protocol) not_found true no_call) no_call

abbrev silent : Tracing
silent = record { in_trace = 0; failures_only = true; lines = [] }
