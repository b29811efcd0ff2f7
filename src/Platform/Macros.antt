-- ===== src/Platform/Macros.antt =====
-- Include/Library/ConvenienceMacros.h, on 64-bit unsigned values. C leaves a shift by 64 or more
-- undefined; the AArch64 shift takes its amount modulo 64, and so does `bit_at`.
use apple_silicon_platforms.Prelude.{ℕ, ◌+◌, ◌-◌, ◌*◌, ◌/◌, ◌%◌, ◌^◌, bit_and}
use apple_silicon_platforms.Platform.Io.{not64}

-- BIT (x)
abbrev pub bit_at : ℕ → ℕ
bit_at x = 2 ^ (x % 64)

-- GENMASK (msb, lsb)
abbrev pub genmask : ℕ → ℕ → ℕ
genmask msb lsb = (bit_at (msb + 1 - lsb) - 1) * 2 ^ lsb % 2 ^ 64

-- _FIELD_LSB (field)
abbrev pub field_lsb : ℕ → ℕ
field_lsb field = bit_and field (not64 ((field + 2 ^ 64 - 1) % 2 ^ 64))

-- FIELD_PREP (field, val)
abbrev pub field_prep : ℕ → ℕ → ℕ
field_prep field val = val * field_lsb field % 2 ^ 64

-- FIELD_GET (field, val)
abbrev pub field_get : ℕ → ℕ → ℕ
field_get field val = bit_and val field / field_lsb field
