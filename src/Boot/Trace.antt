-- ===== src/Boot/Trace.antt =====
-- The tracing functions of BootLaunchApp.c, over what the services do while they run: a service that is
-- called may itself call services through the hooked tables, as StartImage does by the image that it
-- runs, and DEBUG may call them to print a line.
use apple_silicon_platforms.Prelude.{
  ℕ, zero, suc, ◌+◌, ◌-◌, Bool, true, false, not, ◌&&◌, ◌||◌, Option, none, some, List, ◌∷◌, ◌==◌,
  if◌then◌else◌, leb,
}
use apple_silicon_platforms.Platform.Status.{Status, is_error}
use apple_silicon_platforms.Boot.Hooks.{
  BootField, allocate_pages, get_memory_map, locate_handle_buffer, RuntimeField, get_variable,
  get_next_variable_name, get_time,
}

pub data ServiceName : Type 0 where
  boot_service : BootField → ServiceName
  runtime_service : RuntimeField → ServiceName

-- The lines that are printed: the one of TRACE, and those of TraceExit and TraceExitBootServices
pub data Line : Type 0 where
  returned : ServiceName → Status → Line
  exiting : Status → Line
  exit_data exiting_boot_services : Line

-- A call through the hooked tables, with the calls through them that the original makes while it runs.
-- That of a service with TRACE has the original's status, and whether the pointer is good that the
-- tracing function reads, if it reads one; TraceExit has the size of the exit data where there are any,
-- and the image's status.
mutual
  pub data Call : Type 0 where
    traced : ServiceName → Status → Bool → Calls → Call
    exits : Option ℕ → Status → Calls → Call
    exits_boot_services : Calls → Call

  pub data Calls : Type 0 where
    no_call : Calls
    call_then : Call → Calls → Calls

-- mInTrace, mFailuresOnly, and the lines printed, newest first
pub record Tracing : Type 0 where
  pub in_trace : ℕ
  pub failures_only : Bool
  pub lines : List Line

-- How a call ends: it comes back, or it has read through a bad pointer, or the fuel ran out.
pub data Run : Type 0 where
  finished : Tracing → Run
  faulted out_of_fuel : Run

abbrev pub then_run : Run → (Tracing → Run) → Run
then_run (finished s) f = f s
then_run faulted f = faulted
then_run out_of_fuel f = out_of_fuel

-- TRACE prints the line.
unfoldable pub prints : Status → Tracing → Bool
prints status s = s.in_trace == 0 && (not s.failures_only || is_error status)

-- TraceAllocatePages reads *Memory before it calls the original.
unfoldable pub reads_before : ServiceName → Bool
reads_before (boot_service allocate_pages) = true
reads_before _ = false

-- The line's arguments are read through a pointer: *Memory, *Size, *NoHandles, *DataSize, *NameSize and
-- Time's fields
unfoldable pub reads_in_line : ServiceName → Status → Bool
reads_in_line (boot_service allocate_pages) status = true
reads_in_line (boot_service get_memory_map) status = true
reads_in_line (boot_service locate_handle_buffer) status = not (is_error status)
reads_in_line (runtime_service get_variable) status = true
reads_in_line (runtime_service get_next_variable_name) status = true
reads_in_line (runtime_service get_time) status = not (is_error status)
reads_in_line _ status = false

-- TRACE, behind the original; `print` is DEBUG
unfoldable pub trace : (Line → Tracing → Run) → ServiceName → Status → Bool → Tracing → Run
trace print name status good s =
    if prints status s
    then if reads_in_line name status && not good
      then faulted
      else then_run (print (returned name status) (record s { in_trace = s.in_trace + 1 }))
          (λ u. finished (record u { in_trace = u.in_trace - 1 }))
    else finished s

-- TraceExit up to the original
unfoldable pub trace_exit : (Line → Tracing → Run) → Option ℕ → Status → Tracing → Run
trace_exit print size status s = then_run (print (exiting status) s) (λ u. elim size [
  | none ↦ finished u
  | some n ↦ if leb 2 n then print exit_data u else finished u
])

-- The tracing functions, and calls of them one behind the other
unfoldable mutual
  pub run_call : (Line → Tracing → Run) → Call → Tracing → Run
  run_call print (traced name status good inner) s =
      if reads_before name && not good
      then faulted
      else then_run (run_calls print inner s) (trace print name status good)
  run_call print (exits size status inner) s =
      then_run (trace_exit print size status s) (run_calls print inner)
  run_call print (exits_boot_services inner) s =
      then_run (print exiting_boot_services s) (run_calls print inner)

  pub run_calls : (Line → Tracing → Run) → Calls → Tracing → Run
  run_calls print no_call s = finished s
  run_calls print (call_then c cs) s = then_run (run_call print c s) (run_calls print cs)

-- DEBUG, where the console makes these calls for a line. The fuel bounds how deep lines are printed for
-- lines.
unfoldable pub debug : (Line → Calls) → ℕ → Line → Tracing → Run
debug console zero line s = out_of_fuel
debug console (suc fuel) line s =
    run_calls (debug console fuel) (console line) (record s { lines = line ∷ s.lines })
