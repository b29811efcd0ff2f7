-- ===== src/Platform/Status.antt =====
-- EFI_STATUS as the drivers use it. `error n` is any other error code that a service returns.
use apple_silicon_platforms.Prelude.{ℕ, Bool, true, false}

pub data Status : Type 0 where
  success : Status
  invalid_parameter : Status
  unsupported : Status
  device_error : Status
  out_of_resources : Status
  not_found : Status
  timeout : Status
  buffer_too_small : Status
  already_started : Status
  security_violation : Status
  error : ℕ → Status

-- EFI_ERROR
abbrev pub is_error : Status → Bool
is_error success = false
is_error _ = true
