-- ===== src/Boot/Tidy.antt =====
-- What the automatic start may start, and that each of its steps leaves no image behind.
use apple_silicon_platforms.Prelude.{
  ℕ, zero, suc, ◌≡◌, inl, inr, refl, sym, ◌⊎◌, Bool, true, false, ◌&&◌, Option, none, some, List,
  [], ◌∷◌, if◌then◌else◌, arith, Bool-cases,
}
use mathlib.Core.Path.{subst}
use apple_silicon_platforms.Platform.Status.{
  Status, success, invalid_parameter, unsupported, device_error, out_of_resources, not_found,
  timeout, buffer_too_small, already_started, security_violation, error, is_error,
}
use apple_silicon_platforms.Boot.AutoBoot.{
  connected, loaded, options_cleared, started, unloaded, refused, asked, Log, Media, Firmware,
  BootState, done, has_windows_fallback_loader, start_loaded, start_windows_from_handle,
  is_fixed_media, not_loaded, conclude_start, try_device, try_start_windows_from_handle,
  file_system_notify, connect_handles, connect_all_block_io_handles, try_handles, ready_to_boot,
}

-- A file system on a medium that is present and not removable, with the loader's file.
pub record IsEligible (w : Firmware) (h : ℕ) : Type 0 where
  pub media : Media
  pub block_device : w.block_io h ≡ some (some media)
  pub inserted : media.media_present ≡ true
  pub fixed : media.removable_media ≡ false
  pub file_system : w.file_system h ≡ true
  pub volume : w.open_volume h ≡ true
  pub loader : w.open_loader h ≡ true

-- What the driver may have done, between two callbacks: each image that LoadImage has loaded without an
-- error is unloaded, the same one, before anything else is done; it is started at most once in
-- between, its load options cleared just before, and only from an eligible handle. An image that
-- LoadImage has loaded with EFI_SECURITY_VIOLATION stays loaded.
pub data IsTranscript (w : Firmware) : Log → Type 0 where
  empty : IsTranscript w []
  connects : (h : ℕ) {log : Log} → IsTranscript w log → IsTranscript w (connected h ∷ log)
  asks : {log : Log} → IsTranscript w log → IsTranscript w (asked ∷ log)
  refuses :
      (h : ℕ) {log : Log}
      → w.load_image log h ≡ security_violation
      → IsTranscript w log
      → IsTranscript w (refused h ∷ log)
  gives_up : (h : ℕ) {log : Log} → IsTranscript w log → IsTranscript w (unloaded h ∷ loaded h ∷ log)
  runs :
      (h : ℕ) {log : Log}
      → IsEligible w h
      → IsTranscript w log
      → IsTranscript w (unloaded h ∷ started h ∷ options_cleared h ∷ loaded h ∷ log)

abbrev pub IsTidy : Firmware → BootState → Type 0
IsTidy w st = IsTranscript w st.log

module _ (w : Firmware) where
  fixed_media :
      (o : Option (Option Media))
      → is_fixed_media w o ≡ true
      → (m : Media) × (o ≡ some (some m)) × (m.media_present ≡ true) × (m.removable_media ≡ false)
  unfolding is_fixed_media
  fixed_media none e = cc
  fixed_media (some none) e = cc
  fixed_media (some (some m)) e = (m, refl, ground arith, ground arith)

  eligible :
      (h : ℕ)
      → is_fixed_media w (w.block_io h) ≡ true
      → (w.file_system h && has_windows_fallback_loader w h) ≡ true
      → IsEligible w h
  unfolding has_windows_fallback_loader
  eligible h e f =
      let (m, at, present, fixed) = fixed_media (w.block_io h) e in
      record {
        media = m;
        block_device = at;
        inserted = present;
        fixed = fixed;
        file_system = ground (arith, f);
        volume = ground (arith, f);
        loader = ground (arith, f);
      }

  -- Only EFI_SECURITY_VIOLATION leaves something to note.
  pub not_loaded-cases :
      (status : Status) (h : ℕ) (st : BootState)
      → (not_loaded w status h st ≡ st)
        ⊎ ((status ≡ security_violation) × (not_loaded w status h st ≡ done (refused h) st))
  not_loaded-cases security_violation h st = inr (refl, refl)
  not_loaded-cases success h st = inl refl
  not_loaded-cases invalid_parameter h st = inl refl
  not_loaded-cases unsupported h st = inl refl
  not_loaded-cases device_error h st = inl refl
  not_loaded-cases out_of_resources h st = inl refl
  not_loaded-cases not_found h st = inl refl
  not_loaded-cases timeout h st = inl refl
  not_loaded-cases buffer_too_small h st = inl refl
  not_loaded-cases already_started h st = inl refl
  not_loaded-cases (error n) h st = inl refl

  not_loaded-IsTidy :
      (h : ℕ) (st : BootState) → IsTidy w st → IsTidy w (not_loaded w (w.load_image st.log h) h st)
  not_loaded-IsTidy h st tidy = elim (not_loaded-cases (w.load_image st.log h) h st) [
    | inl e ↦ subst (λ st'. IsTidy w st') (sym e) tidy
    | inr (refusal, e) ↦ subst (λ st'. IsTidy w st') (sym e) (refuses h refusal tidy)
  ]

  start_windows_from_handle-IsTidy :
      (h : ℕ) (st : BootState)
      → IsEligible w h
      → IsTidy w st
      → IsTidy w (start_windows_from_handle w h st).1
  unfolding start_windows_from_handle start_loaded
  start_windows_from_handle-IsTidy h st ok tidy = elim (Bool-cases (w.device_path h)) [
    | inr e ↦ rw e tidy
    | inl e ↦ rw e (elim (Bool-cases (is_error (w.load_image st.log h))) [
      | inl f ↦ rw f (not_loaded-IsTidy h st tidy)
      | inr f ↦ rw f (elim (Bool-cases (is_error (w.loaded_image (loaded h ∷ st.log) h))) [
        | inl g ↦ rw g (gives_up h tidy)
        | inr g ↦ rw g (runs h ok tidy)
      ])
    ])
  ]

  conclude_start-IsTidy : (r : Status × BootState) → IsTidy w r.1 → IsTidy w (conclude_start w r).1
  unfolding conclude_start
  conclude_start-IsTidy r tidy = elim (Bool-cases (is_error r.0)) [
    | inl e ↦ rw e tidy
    | inr e ↦ rw e tidy
  ]

  try_device-IsTidy : (h : ℕ) (st : BootState) → IsTidy w st → IsTidy w (try_device w h st).1
  unfolding try_device
  try_device-IsTidy h st tidy = elim (Bool-cases (is_fixed_media w (w.block_io h))) [
    | inr e ↦ rw e tidy
    | inl e ↦ rw e (elim (Bool-cases (w.file_system h && has_windows_fallback_loader w h)) [
      | inr f ↦ rw f tidy
      | inl f ↦ rw f (
          conclude_start-IsTidy
            (start_windows_from_handle w h (record st { windows_started = true }))
            (start_windows_from_handle-IsTidy h (record st { windows_started = true })
              (eligible h e f) tidy))
    ])
  ]

  try_start-IsTidy :
      (h : ℕ) (st : BootState) → IsTidy w st → IsTidy w (try_start_windows_from_handle w h st).1
  unfolding try_start_windows_from_handle
  try_start-IsTidy h st tidy = pick st.windows_started
    where
      pick : (b : Bool) → IsTidy w (if b then (true, st) else try_device w h st).1
      pick true = tidy
      pick false = try_device-IsTidy h st tidy

  asked-IsTidy : (st : BootState) → IsTidy w st → IsTidy w (done asked st)
  asked-IsTidy st tidy = asks tidy

  connect_handles-IsTidy :
      (hs : List ℕ) (st : BootState) → IsTidy w st → IsTidy w (connect_handles w hs st)
  unfolding connect_handles
  connect_handles-IsTidy [] st tidy = tidy
  connect_handles-IsTidy (h ∷ hs) st tidy =
      connect_handles-IsTidy hs (done (connected h) st) (connects h tidy)

  try_handles-IsTidy : (hs : List ℕ) (st : BootState) → IsTidy w st → IsTidy w (try_handles w hs st)
  unfolding try_handles
  try_handles-IsTidy [] st tidy = tidy
  try_handles-IsTidy (h ∷ hs) st tidy =
      let first = try_start-IsTidy h st tidy in
      pick (try_start_windows_from_handle w h st).0 first
        (try_handles-IsTidy hs (try_start_windows_from_handle w h st).1 first)
    where
      pick :
          (b : Bool)
          → IsTidy w (try_start_windows_from_handle w h st).1
          → IsTidy w (try_handles w hs (try_start_windows_from_handle w h st).1)
          → IsTidy w (elim b [
            | true ↦ (try_start_windows_from_handle w h st).1
            | false ↦ try_handles w hs (try_start_windows_from_handle w h st).1
          ])
      pick true first rest = first
      pick false first rest = rest

  -- A state that a loop has come to is tidy.
  abbrev Tidy? : Option BootState → Type 0
  Tidy? none = Unit {0}
  Tidy? (some st) = IsTidy w st

  pub file_system_notify-IsTidy :
      (fuel : ℕ) (st : BootState) {st' : BootState}
      → IsTidy w st
      → file_system_notify w fuel st ≡ some st'
      → IsTidy w st'
  unfolding file_system_notify
  file_system_notify-IsTidy zero st tidy e = cc
  file_system_notify-IsTidy (suc fuel) st {st'} tidy e =
      pick st.windows_started (w.new_handle st.log)
        (λ h f.
          file_system_notify-IsTidy fuel (try_start_windows_from_handle w h (done asked st)).1
            (try_start-IsTidy h (done asked st) (asked-IsTidy st tidy)) f)
        e
    where
      pick :
          (b : Bool) (o : Option ℕ)
          → ((h : ℕ)
              → file_system_notify w fuel (try_start_windows_from_handle w h (done asked st)).1
                ≡ some st'
              → IsTidy w st')
          → elim b [
            | true ↦ some st
            | false ↦ elim o [
              | none ↦ some (done asked st)
              | some h ↦
                  file_system_notify w fuel (try_start_windows_from_handle w h (done asked st)).1
            ]
          ]
            ≡ some st'
          → IsTidy w st'
      pick true o retry f = subst (λ o. Tidy? o) f tidy
      pick false none retry f = subst (λ o. Tidy? o) f (asked-IsTidy st tidy)
      pick false (some h) retry f = retry h f

  pub ready_to_boot-IsTidy : (st : BootState) → IsTidy w st → IsTidy w (ready_to_boot w st)
  unfolding ready_to_boot connect_all_block_io_handles
  ready_to_boot-IsTidy st tidy = pick_files (w.file_system_handles connected_st.log)
    where
      connected_st : BootState
      connected_st = connect_all_block_io_handles w st

      pick_blocks :
          (o : Option (List ℕ))
          → IsTidy w (elim o [ none ↦ st | some hs ↦ connect_handles w hs st ])
      pick_blocks none = tidy
      pick_blocks (some hs) = connect_handles-IsTidy hs st tidy

      pick_files :
          (o : Option (List ℕ))
          → IsTidy w (elim o [ none ↦ connected_st | some hs ↦ try_handles w hs connected_st ])
      pick_files none = pick_blocks (w.block_io_handles st.log)
      pick_files (some hs) =
          try_handles-IsTidy hs connected_st (pick_blocks (w.block_io_handles st.log))
