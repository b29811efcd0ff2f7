-- ===== src/Boot/Attempts.antt =====
-- TryStartWindowsFromHandle of WindowsAutoBootDxe.c: a volume that can start Windows is attempted.
use apple_silicon_platforms.Prelude.{
  ℕ, ◌≡◌, ◌⊎◌, inl, inr, refl, sym, ap, ◌∙◌, Bool, true, false, ◌&&◌, [], ◌∷◌, ◌++◌, if◌then◌else◌,
  Bool-cases,
}
use mathlib.Core.List.{append_assoc}
use mathlib.Core.Path.{subst}
use apple_silicon_platforms.Platform.Status.{security_violation, is_error}
use apple_silicon_platforms.Boot.AutoBoot.{
  loaded, options_cleared, started, unloaded, refused, Log, Firmware, BootState, done,
  has_windows_fallback_loader, start_loaded, start_windows_from_handle, is_fixed_media, not_loaded,
  conclude_start, try_device, try_start_windows_from_handle,
}
use apple_silicon_platforms.Boot.Tidy.{IsEligible, not_loaded-cases}

-- More was done, and nothing is forgotten.
abbrev pub Extends : Log → Log → Type 0
Extends log log' = (new : Log) × (log' ≡ new ++ log)

module _ (w : Firmware) where
  -- LoadImage was called for the handle, and has failed or has loaded the image.
  pub record IsAttempted (h : ℕ) (log : Log) : Type 0 where
    pub later : Log
    pub before : Log
    pub outcome :
        ((is_error (w.load_image before h) ≡ true) × (log ≡ later ++ before))
        ⊎ (log ≡ later ++ (loaded h ∷ before))

  pub IsAttempted-Extends :
      (h : ℕ) (log log' : Log) → IsAttempted h log → Extends log log' → IsAttempted h log'
  IsAttempted-Extends h log log' a x = record {
    later = x.0 ++ a.later;
    before = a.before;
    outcome = elim a.outcome [
      | inl p ↦ inl (p.0, x.1 ∙ ap (λ l. x.0 ++ l) p.1 ∙ sym (append_assoc x.0 a.later a.before))
      | inr e ↦
          inr (x.1 ∙ ap (λ l. x.0 ++ l) e ∙ sym (append_assoc x.0 a.later (loaded h ∷ a.before)))
    ];
  }

  -- What a step of the search keeps and adds: the flag, the log, and the call of LoadImage.
  record Tries (h : ℕ) (st st' : BootState) : Type 0 where
    flag : st'.windows_started ≡ st.windows_started
    longer : Extends st.log st'.log
    attempt : w.device_path h ≡ true → IsAttempted h st'.log

  start-Tries : (h : ℕ) (st : BootState) → Tries h st (start_windows_from_handle w h st).1
  unfolding start_windows_from_handle start_loaded
  start-Tries h st = elim (Bool-cases (w.device_path h)) [
    | inr e ↦ rw e (record { flag = refl; longer = ([], refl); attempt = λ path. cc })
    | inl e ↦ rw e (elim (Bool-cases (is_error (w.load_image st.log h))) [
      | inl f ↦ rw f (failed f (not_loaded-cases w (w.load_image st.log h) h st))
      | inr f ↦ rw f (elim (Bool-cases (is_error (w.loaded_image (loaded h ∷ st.log) h))) [
        | inl g ↦ rw g (record {
          flag = refl;
          longer = (unloaded h ∷ loaded h ∷ [], refl);
          attempt = λ path. record { later = unloaded h ∷ []; before = st.log; outcome = inr refl };
        })
        | inr g ↦ rw g (record {
          flag = refl;
          longer = (unloaded h ∷ started h ∷ options_cleared h ∷ loaded h ∷ [], refl);
          attempt = λ path. record {
            later = unloaded h ∷ started h ∷ options_cleared h ∷ [];
            before = st.log;
            outcome = inr refl;
          };
        })
      ])
    ])
  ]
    where
      Refused : BootState → Type 0
      Refused st' = Tries h st st'

      failed :
          is_error (w.load_image st.log h) ≡ true
          → (not_loaded w (w.load_image st.log h) h st ≡ st)
            ⊎ ((w.load_image st.log h ≡ security_violation)
                × (not_loaded w (w.load_image st.log h) h st ≡ done (refused h) st))
          → Refused (not_loaded w (w.load_image st.log h) h st)
      failed f (inl e) = subst Refused (sym e) (record {
        flag = refl;
        longer = ([], refl);
        attempt = λ path. record { later = []; before = st.log; outcome = inl (f, refl) };
      })
      failed f (inr (refusal, e)) = subst Refused (sym e) (record {
        flag = refl;
        longer = (refused h ∷ [], refl);
        attempt =
            λ path. record { later = refused h ∷ []; before = st.log; outcome = inl (f, refl) };
      })

  -- The same of TryStartWindowsFromHandle where Windows is not started: the flag is what it returns, and
  -- LoadImage is called if the handle can start Windows.
  pub record Concludes (h : ℕ) (st : BootState) (r : Bool × BootState) : Type 0 where
    pub flag : r.1.windows_started ≡ r.0
    pub longer : Extends st.log r.1.log
    pub attempt : IsEligible w h → w.device_path h ≡ true → IsAttempted h r.1.log

  conclude_start-Concludes :
      (h : ℕ) (st : BootState)
      → Concludes h st
          (conclude_start w (start_windows_from_handle w h (record st { windows_started = true })))
  unfolding conclude_start
  conclude_start-Concludes h st =
      let r = start_windows_from_handle w h (record st { windows_started = true }) in
      let tries = start-Tries h (record st { windows_started = true }) in
      elim (Bool-cases (is_error r.0)) [
        | inl e ↦
            rw e (record {
              flag = refl;
              longer = tries.longer;
              attempt = λ ok path. tries.attempt path;
            })
        | inr e ↦ rw e (record {
          flag = tries.flag;
          longer = tries.longer;
          attempt = λ ok path. tries.attempt path;
        })
      ]

  fixed_media : (h : ℕ) → IsEligible w h → is_fixed_media w (w.block_io h) ≡ true
  unfolding is_fixed_media
  fixed_media h ok = rw ok.block_device (rw (ok.inserted, ok.fixed) refl)

  has_loader :
      (h : ℕ) → IsEligible w h → (w.file_system h && has_windows_fallback_loader w h) ≡ true
  unfolding has_windows_fallback_loader
  has_loader h ok = rw (ok.file_system, ok.volume, ok.loader) refl

  try_device-Concludes :
      (h : ℕ) (st : BootState) → st.windows_started ≡ false → Concludes h st (try_device w h st)
  unfolding try_device
  try_device-Concludes h st idle = elim (Bool-cases (is_fixed_media w (w.block_io h))) [
    | inr e ↦ rw e (record {
      flag = idle;
      longer = ([], refl);
      attempt = λ ok path. absurd (differ (is_fixed_media w (w.block_io h)) (fixed_media h ok) e);
    })
    | inl e ↦ rw e (elim (Bool-cases (w.file_system h && has_windows_fallback_loader w h)) [
      | inr f ↦ rw f (record {
        flag = idle;
        longer = ([], refl);
        attempt = λ ok path.
            absurd
              (differ (w.file_system h && has_windows_fallback_loader w h) (has_loader h ok) f);
      })
      | inl f ↦ rw f (conclude_start-Concludes h st)
    ])
  ]
    where
      differ : (b : Bool) → b ≡ true → b ≡ false → ⊥
      differ b p q = cc

  pub try_start-Concludes :
      (h : ℕ) (st : BootState)
      → st.windows_started ≡ false
      → Concludes h st (try_start_windows_from_handle w h st)
  unfolding try_start_windows_from_handle
  try_start-Concludes h st idle = pick st.windows_started idle
    where
      pick : (b : Bool) → b ≡ false → Concludes h st (if b then (true, st) else try_device w h st)
      pick true e = cc
      pick false e = try_device-Concludes h st idle
