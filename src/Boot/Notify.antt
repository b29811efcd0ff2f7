-- ===== src/Boot/Notify.antt =====
-- The file system callback's loop ends.
use apple_silicon_platforms.Prelude.{
  ℕ, zero, suc, ◌+◌, ◌≤◌, ◌<◌, ◌≡◌, ◌⊎◌, inl, inr, refl, ap, ◌∙◌, Bool, true, false, ◌&&◌, Option,
  none, some, [], ◌∷◌, if◌then◌else◌, arith, Bool-cases,
}
use native.Mathlib.Decide.{dec_lt}
use apple_silicon_platforms.Platform.Status.{Status, is_error}
use apple_silicon_platforms.Boot.AutoBoot.{
  loaded, options_cleared, started, unloaded, asked, Log, Firmware, BootState, done,
  has_windows_fallback_loader, start_loaded, start_windows_from_handle, is_fixed_media, not_loaded,
  conclude_start, try_device, try_start_windows_from_handle, file_system_notify,
}
use apple_silicon_platforms.Boot.Tidy.{not_loaded-cases}

-- The calls of LocateHandle for the registration.
abbrev pub asks : Log → ℕ
asks [] = 0
asks (asked ∷ log) = 1 + asks log
asks (_ ∷ log) = asks log

module _ (w : Firmware) where
  not_loaded-asks :
      (status : Status) (h : ℕ) (st : BootState) → asks (not_loaded w status h st).log ≡ asks st.log
  not_loaded-asks status h st = elim (not_loaded-cases w status h st) [
    | inl e ↦ ap (λ (st' : BootState). asks st'.log) e
    | inr (refusal, e) ↦ ap (λ (st' : BootState). asks st'.log) e
  ]

  start-asks :
      (h : ℕ) (st : BootState) → asks (start_windows_from_handle w h st).1.log ≡ asks st.log
  unfolding start_windows_from_handle start_loaded
  start-asks h st = elim (Bool-cases (w.device_path h)) [
    | inr e ↦ rw e refl
    | inl e ↦ rw e (elim (Bool-cases (is_error (w.load_image st.log h))) [
      | inl f ↦ rw f (not_loaded-asks (w.load_image st.log h) h st)
      | inr f ↦ rw f (elim (Bool-cases (is_error (w.loaded_image (loaded h ∷ st.log) h))) [
        | inl g ↦ rw g refl
        | inr g ↦ rw g refl
      ])
    ])
  ]

  conclude_start-log : (r : Status × BootState) → (conclude_start w r).1.log ≡ r.1.log
  unfolding conclude_start
  conclude_start-log r = ground arith

  try_device-asks : (h : ℕ) (st : BootState) → asks (try_device w h st).1.log ≡ asks st.log
  unfolding try_device
  try_device-asks h st = elim (Bool-cases (is_fixed_media w (w.block_io h))) [
    | inr e ↦ rw e refl
    | inl e ↦ rw e (elim (Bool-cases (w.file_system h && has_windows_fallback_loader w h)) [
      | inr f ↦ rw f refl
      | inl f ↦ rw f (
          ap asks (
            conclude_start-log
              (start_windows_from_handle w h (record st { windows_started = true })))
          ∙ start-asks h (record st { windows_started = true }))
    ])
  ]

  try_start-asks :
      (h : ℕ) (st : BootState) → asks (try_start_windows_from_handle w h st).1.log ≡ asks st.log
  unfolding try_start_windows_from_handle
  try_start-asks h st = pick st.windows_started
    where
      pick : (b : Bool) → asks (if b then (true, st) else try_device w h st).1.log ≡ asks st.log
      pick true = refl
      pick false = try_device-asks h st

  not_dry :
      (n : ℕ) (log : Log) (h : ℕ)
      → ((log : Log) → n ≤ asks log → w.new_handle log ≡ none)
      → w.new_handle log ≡ some h
      → asks log < n
  not_dry n log h dry e = elim (dec_lt (asks log) n) [
    | yes p ↦ p
    | no p ↦ let f = dry log (omega (arith, p)) in cc
  ]

  -- The last thing done is the start of an image that came back without an error, and its unloading.
  pub record HasStarted (log : Log) : Type 0 where
    pub handle : ℕ
    pub rest : Log
    pub last : log ≡ unloaded handle ∷ started handle ∷ options_cleared handle ∷ rest
    pub came_back : is_error (w.start_image (options_cleared handle ∷ rest) handle) ≡ false

  -- The flag is set only behind such a start.
  abbrev pub IsTold : BootState → Type 0
  IsTold st = st.windows_started ≡ true → HasStarted st.log

  start-HasStarted :
      (h : ℕ) (st : BootState)
      → is_error (start_windows_from_handle w h st).0 ≡ false
      → HasStarted (start_windows_from_handle w h st).1.log
  unfolding start_windows_from_handle start_loaded
  start-HasStarted h st = elim (Bool-cases (w.device_path h)) [
    | inr e ↦ rw e (λ ok. cc)
    | inl e ↦ rw e (elim (Bool-cases (is_error (w.load_image st.log h))) [
      | inl f ↦ rw f (λ ok. cc)
      | inr f ↦ rw f (elim (Bool-cases (is_error (w.loaded_image (loaded h ∷ st.log) h))) [
        | inl g ↦ rw g (λ ok. cc)
        | inr g ↦
            rw g
              (λ ok. record { handle = h; rest = loaded h ∷ st.log; last = refl; came_back = ok })
      ])
    ])
  ]

  conclude_start-IsTold :
      (r : Status × BootState)
      → (is_error r.0 ≡ false → HasStarted r.1.log)
      → IsTold (conclude_start w r).1
  unfolding conclude_start
  conclude_start-IsTold r ran = elim (Bool-cases (is_error r.0)) [
    | inl e ↦ rw e (λ told. cc)
    | inr e ↦ rw e (λ told. ran e)
  ]

  try_device-IsTold :
      (h : ℕ) (st : BootState) → st.windows_started ≡ false → IsTold (try_device w h st).1
  unfolding try_device
  try_device-IsTold h st idle = elim (Bool-cases (is_fixed_media w (w.block_io h))) [
    | inr e ↦ rw e (λ told. cc)
    | inl e ↦ rw e (elim (Bool-cases (w.file_system h && has_windows_fallback_loader w h)) [
      | inr f ↦ rw f (λ told. cc)
      | inl f ↦ rw f (
          conclude_start-IsTold
            (start_windows_from_handle w h (record st { windows_started = true }))
            (start-HasStarted h (record st { windows_started = true })))
    ])
  ]

  pub try_start-IsTold :
      (h : ℕ) (st : BootState)
      → st.windows_started ≡ false
      → IsTold (try_start_windows_from_handle w h st).1
  unfolding try_start_windows_from_handle
  try_start-IsTold h st idle = pick st.windows_started idle
    where
      pick : (b : Bool) → b ≡ false → IsTold (if b then (true, st) else try_device w h st).1
      pick true e = cc
      pick false e = try_device-IsTold h st idle

  -- The loop has ended because an image was started that came back without an error, which is the
  -- last thing done, or, with nothing started, because no new file system was left.
  abbrev pub Ended : BootState → Type 0
  Ended st =
      ((st.windows_started ≡ true) × HasStarted st.log)
      ⊎ ((st.windows_started ≡ false)
          × (rest : Log) × (st.log ≡ asked ∷ rest)
          × (w.new_handle rest ≡ none))

  loop_ends :
      (n fuel : ℕ) (st : BootState)
      → ((log : Log) → n ≤ asks log → w.new_handle log ≡ none)
      → 0 < fuel
      → n < fuel + asks st.log
      → IsTold st
      → (st' : BootState) × (file_system_notify w fuel st ≡ some st') × Ended st'
  unfolding file_system_notify
  loop_ends n zero st dry some_fuel enough told = absurd (omega arith)
  loop_ends n (suc fuel) st dry some_fuel enough told =
      pick st.windows_started (w.new_handle st.log) refl refl (λ h idle e.
        let left = not_dry n st.log h dry e in
        let same = try_start-asks h (done asked st) in
        loop_ends n fuel (try_start_windows_from_handle w h (done asked st)).1 dry
          (omega (arith, left, enough)) (omega (arith, same, enough))
          (try_start-IsTold h (done asked st) idle))
    where
      Outcome : Option BootState → Type 0
      Outcome o = (st' : BootState) × (o ≡ some st') × Ended st'

      pick :
          (b : Bool) (o : Option ℕ)
          → st.windows_started ≡ b
          → w.new_handle st.log ≡ o
          → ((h : ℕ)
              → st.windows_started ≡ false
              → w.new_handle st.log ≡ some h
              → Outcome
                  (file_system_notify w fuel (try_start_windows_from_handle w h (done asked st)).1))
          → Outcome (elim b [
            | true ↦ some st
            | false ↦ elim o [
              | none ↦ some (done asked st)
              | some h ↦
                  file_system_notify w fuel (try_start_windows_from_handle w h (done asked st)).1
            ]
          ])
      pick true o e f rest = (st, refl, inl (e, told e))
      pick false none e f rest = (done asked st, refl, inr (e, st.log, refl, f))
      pick false (some h) e f rest = rest h e f

  -- WindowsAutoBootFileSystemNotify, called while Windows is not started, where LocateHandle gives no
  -- new handle any more once it was called `n` times in all: with a round of fuel for each call that
  -- is left, and one more, the loop ends. Either the flag is set and the last thing done is the start
  -- of an image that came back without an error, and its unloading; or the flag is not set and the
  -- last LocateHandle gave no new file system.
  pub file_system_notify_lem :
      (n fuel : ℕ) (st : BootState)
      → st.windows_started ≡ false
      → ((log : Log) → n ≤ asks log → w.new_handle log ≡ none)
      → 0 < fuel
      → n < fuel + asks st.log
      → (st' : BootState) × (file_system_notify w fuel st ≡ some st') × Ended st'
  file_system_notify_lem n fuel st idle dry some_fuel enough =
      loop_ends n fuel st dry some_fuel enough (λ told. cc)
