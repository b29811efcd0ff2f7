-- ===== src/Boot/AutoBoot.antt =====
-- WindowsAutoBootDxe.c. The boot services, the file systems and the block devices are other
-- drivers': their answers are the record Firmware, given for a handle or from what was done so far.
use apple_silicon_platforms.Prelude.{
  ℕ, zero, suc, Bool, true, false, not, ◌&&◌, Option, none, some, List, [], ◌∷◌, if◌then◌else◌,
}
use apple_silicon_platforms.Platform.Status.{Status, out_of_resources, security_violation, is_error}

-- What the driver does, newest first: a handle stands for its device, and for the image loaded
-- from it. `refused` is a LoadImage that answers EFI_SECURITY_VIOLATION, which has loaded the image all
-- the same. `asked` is a LocateHandle for the registration.
pub data BootEvent : Type 0 where
  connected loaded options_cleared started unloaded refused : ℕ → BootEvent
  asked : BootEvent

abbrev pub Log : Type 0
Log = List BootEvent

-- EFI_BLOCK_IO_MEDIA
pub record Media : Type 0 where
  pub media_present : Bool
  pub removable_media : Bool

pub record Firmware : Type 0 where
  -- LocateHandleBuffer for block I/O and for the simple file system; none is an error
  pub block_io_handles : Log → Option (List ℕ)
  pub file_system_handles : Log → Option (List ℕ)
  -- LocateHandle by the registration: a handle that is new since the last call
  pub new_handle : Log → Option ℕ
  -- HandleProtocol for block I/O, and Media, which may be NULL
  pub block_io : ℕ → Option (Option Media)
  -- HandleProtocol for the file system, OpenVolume, and Open of the loader's file
  pub file_system : ℕ → Bool
  pub open_volume : ℕ → Bool
  pub open_loader : ℕ → Bool
  -- FileDevicePath gives a path
  pub device_path : ℕ → Bool
  -- LoadImage, HandleProtocol for the loaded image, and StartImage
  pub load_image : Log → ℕ → Status
  pub loaded_image : Log → ℕ → Status
  pub start_image : Log → ℕ → Status
  -- CreateEvent, RegisterProtocolNotify and CreateEventEx
  pub create_event : Status
  pub register_protocol_notify : Status
  pub create_event_ex : Status

-- mWindowsStarted, and what was done
pub record BootState : Type 0 where
  pub windows_started : Bool
  pub log : Log

abbrev pub done : BootEvent → BootState → BootState
done e st = record st { log = e ∷ st.log }

module _ (w : Firmware) where
  -- HasWindowsFallbackLoader
  unfoldable pub has_windows_fallback_loader : ℕ → Bool
  has_windows_fallback_loader h = if w.open_volume h then w.open_loader h else false

  -- StartWindowsFromHandle behind a successful LoadImage
  unfoldable pub start_loaded : ℕ → BootState → Status × BootState
  start_loaded h st =
      if is_error (w.loaded_image st.log h)
      then (w.loaded_image st.log h, done (unloaded h) st)
      else (
        w.start_image (options_cleared h ∷ st.log) h,
        done (unloaded h) (done (started h) (done (options_cleared h) st)),
      )

  -- What a LoadImage with an error has done
  abbrev pub not_loaded : Status → ℕ → BootState → BootState
  not_loaded security_violation h st = done (refused h) st
  not_loaded _ h st = st

  -- StartWindowsFromHandle
  unfoldable pub start_windows_from_handle : ℕ → BootState → Status × BootState
  start_windows_from_handle h st =
      if w.device_path h
      then if is_error (w.load_image st.log h)
        then (w.load_image st.log h, not_loaded (w.load_image st.log h) h st)
        else start_loaded h (done (loaded h) st)
      else (out_of_resources, st)

  -- The checks of the block device
  unfoldable pub is_fixed_media : Option (Option Media) → Bool
  is_fixed_media none = false
  is_fixed_media (some none) = false
  is_fixed_media (some (some m)) = m.media_present && not m.removable_media

  -- TryStartWindowsFromHandle behind StartWindowsFromHandle
  unfoldable pub conclude_start : Status × BootState → Bool × BootState
  conclude_start r =
      if is_error r.0 then (false, record r.1 { windows_started = false }) else (true, r.1)

  -- TryStartWindowsFromHandle where Windows has not been started
  unfoldable pub try_device : ℕ → BootState → Bool × BootState
  try_device h st =
      if is_fixed_media (w.block_io h)
      then if w.file_system h && has_windows_fallback_loader h
        then conclude_start (start_windows_from_handle h (record st { windows_started = true }))
        else (false, st)
      else (false, st)

  -- TryStartWindowsFromHandle
  unfoldable pub try_start_windows_from_handle : ℕ → BootState → Bool × BootState
  try_start_windows_from_handle h st = if st.windows_started then (true, st) else try_device h st

  -- WindowsAutoBootFileSystemNotify; none is a loop that the fuel does not end
  unfoldable pub file_system_notify : ℕ → BootState → Option BootState
  file_system_notify zero st = none
  file_system_notify (suc fuel) st = elim st.windows_started [
    | true ↦ some st
    | false ↦ elim (w.new_handle st.log) [
      | none ↦ some (done asked st)
      | some h ↦ file_system_notify fuel (try_start_windows_from_handle h (done asked st)).1
    ]
  ]

  -- ConnectAllBlockIoHandles
  unfoldable pub connect_handles : List ℕ → BootState → BootState
  connect_handles [] st = st
  connect_handles (h ∷ hs) st = connect_handles hs (done (connected h) st)

  unfoldable pub connect_all_block_io_handles : BootState → BootState
  connect_all_block_io_handles st = elim (w.block_io_handles st.log) [
    | none ↦ st
    | some hs ↦ connect_handles hs st
  ]

  -- The loop over the file systems, which the first start ends
  unfoldable pub try_handles : List ℕ → BootState → BootState
  try_handles [] st = st
  try_handles (h ∷ hs) st =
      let r = try_start_windows_from_handle h st in
      elim r.0 [ true ↦ r.1 | false ↦ try_handles hs r.1 ]

  -- WindowsAutoBootReadyToBoot
  unfoldable pub ready_to_boot : BootState → BootState
  ready_to_boot st =
      let connected_st = connect_all_block_io_handles st in
      elim (w.file_system_handles connected_st.log) [
        | none ↦ connected_st
        | some hs ↦ try_handles hs connected_st
      ]

  -- WindowsAutoBootDxeInitialize: its status, the variable that it clears, and whether the file
  -- system event is open and the ready-to-boot event is there
  unfoldable pub initialize : Status × BootState × Bool × Bool
  initialize =
      let st : BootState = record { windows_started = false; log = [] } in
      if is_error w.create_event
      then (w.create_event, st, false, false)
      else if is_error w.register_protocol_notify
      then (w.register_protocol_notify, st, false, false)
      else (w.create_event_ex, st, true, not (is_error w.create_event_ex))
