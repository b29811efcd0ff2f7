-- ===== src/Acpi/Checksum.antt =====
-- AcpiPlatformChecksum. CalculateCheckSum8 is BaseLib's, a parameter with its documented laws.
use apple_silicon_platforms.Prelude.{
  ℕ, zero, suc, ◌+◌, ◌*◌, ◌%◌, ◌≤◌, ◌<◌, ◌≡◌, ◌≢◌, refl, sym, ap, ◌∙◌, Option, none, some, List, [],
  ◌∷◌, length, get_elem?, set, take, length-set, length-take, take-set, set-set, get_elem?-set_ne,
  ltb, if◌then◌else◌, arith,
}

abbrev pub sum : List ℕ → ℕ
sum [] = 0
sum (x ∷ xs) = x + sum xs

-- CalculateCheckSum8 (Buffer, Length): the two's complement of the sum of the bytes.
pub record ChecksumLib : Type 0 where
  pub checksum8 : List ℕ → ℕ
  pub checksum8-lt : (bytes : List ℕ) → checksum8 bytes < 256
  pub checksum8-sum : (bytes : List ℕ) → (sum bytes + checksum8 bytes) % 256 ≡ 0

-- OFFSET_OF (EFI_ACPI_DESCRIPTION_HEADER, Checksum)
abbrev pub checksum_offset : ℕ
checksum_offset = 9

-- The Length field of a table's header, little endian; none if the buffer ends before it.
unfoldable pub header_length : List ℕ → Option ℕ
header_length (_ ∷ _ ∷ _ ∷ _ ∷ l0 ∷ l1 ∷ l2 ∷ l3 ∷ _) =
    some (l0 + 256 * (l1 + 256 * (l2 + 256 * l3)))
header_length _ = none

-- AcpiPlatformChecksum (Buffer, Size); none is an access past the buffer
unfoldable pub acpi_platform_checksum : ChecksumLib → List ℕ → ℕ → Option (List ℕ)
acpi_platform_checksum lib buffer size =
    if ltb checksum_offset (length buffer)
    then if ltb (length buffer) size
      then none
      else some (
          set (set buffer checksum_offset 0) checksum_offset
            (lib.checksum8 (take size (set buffer checksum_offset 0))))
    else none

sum-set_zero :
    (xs : List ℕ) (i : ℕ) (v : ℕ) → i < length xs → sum (set xs i v) ≡ sum (set xs i 0) + v
sum-set_zero [] i v h = elim h [ ]
sum-set_zero (x ∷ xs) zero v h = omega arith
sum-set_zero (x ∷ xs) (suc i) v h = omega (arith, sum-set_zero xs i v (omega arith))

-- The buffer behind AcpiPlatformChecksum, where it holds the size that is summed and the field lies
-- in it: the bytes up to the size add up to 0 modulo 256, and only the checksum's byte is new.
pub acpi_platform_checksum_lem :
    (lib : ChecksumLib) (buffer : List ℕ) (size : ℕ)
    → checksum_offset < size
    → size ≤ length buffer
    → (buffer' : List ℕ) × (acpi_platform_checksum lib buffer size ≡ some buffer')
      × (length buffer' ≡ length buffer)
      × (sum (take size buffer') % 256 ≡ 0)
      × ((i : ℕ) → i ≢ checksum_offset → get_elem? buffer' i ≡ get_elem? buffer i)
unfolding acpi_platform_checksum
acpi_platform_checksum_lem lib buffer size small fits =
    let cleared = set buffer checksum_offset 0 in
    let c = lib.checksum8 (take size cleared) in
    let buffer' = set cleared checksum_offset c in
    (
      buffer',
      ground arith,
      length-set cleared checksum_offset c ∙ length-set buffer checksum_offset 0,
      sums cleared refl,
      λ i h.
          get_elem?-set_ne cleared c (λ e. h (sym e)) ∙ get_elem?-set_ne buffer 0 (λ e. h (sym e)),
    )
  where
    sums :
        (cleared : List ℕ)
        → set buffer checksum_offset 0 ≡ cleared
        → sum (take size (set cleared checksum_offset (lib.checksum8 (take size cleared)))) % 256
          ≡ 0
    sums cleared e =
        let t = take size buffer in
        let c = lib.checksum8 (take size cleared) in
        let e1 : take size cleared ≡ set t checksum_offset 0 =
          ap (take size) (sym e) ∙ take-set size buffer checksum_offset 0 in
        let e2 : take size (set cleared checksum_offset c) ≡ set t checksum_offset c =
          ap (λ (b : List ℕ). take size (set b checksum_offset c)) (sym e)
          ∙ ap (take size) (set-set buffer checksum_offset 0 c)
          ∙ take-set size buffer checksum_offset c in
        let s = sum-set_zero t checksum_offset c (omega (arith, length-take size buffer fits)) in
        omega (arith, ap sum e2, ap sum e1, s, lib.checksum8-sum (take size cleared))
