-- ===== src/Smbios/Record.antt =====
-- LogSmbiosData of SmbiosInfoDxe.c: the record that it builds in a pool of its own, and its hand-over
-- to the SMBIOS protocol. A string is the list of its characters, without the NUL.
use apple_silicon_platforms.Prelude.{
  ℕ, zero, suc, ◌+◌, Option, none, some, List, [], ◌∷◌, ◌++◌, Bool, true, length, replicate,
  if◌then◌else◌,
}
use apple_silicon_platforms.Platform.Status.{Status, out_of_resources, is_error}

-- A fixed structure: EFI_SMBIOS_TABLE_HEADER's Type, and the bytes behind the header. Its Length is
-- the size of the structure, under 256 for each structure of the file, and its Handle is 0.
pub record Template : Type 0 where
  pub kind : ℕ
  pub body : List ℕ

abbrev pub template_length : Template → ℕ
template_length t = 4 + length t.body

abbrev pub template_bytes : Template → List ℕ
template_bytes t = t.kind ∷ template_length t ∷ 0 ∷ 0 ∷ t.body

-- An array of strings up to its NULL
abbrev pub StringPack : Type 0
StringPack = List (List ℕ)

-- AsciiStrSize of each string
unfoldable pub string_sizes : StringPack → ℕ
string_sizes [] = 0
string_sizes (s ∷ ss) = (length s + 1) + string_sizes ss

-- Size
unfoldable pub record_size : Template → Option StringPack → ℕ
record_size t none = template_length t + 2
record_size t (some []) = template_length t + 0 + 1 + 1
record_size t (some (s ∷ ss)) = template_length t + string_sizes (s ∷ ss) + 1

-- CopyMem to an offset of the buffer; none is a write past its end
unfoldable pub copy_mem : List ℕ → ℕ → List ℕ → Option (List ℕ)
copy_mem buffer zero [] = some buffer
copy_mem [] zero (x ∷ xs) = none
copy_mem (b ∷ buffer) zero (x ∷ xs) = elim (copy_mem buffer zero xs) [
  | none ↦ none
  | some rest ↦ some (x ∷ rest)
]
copy_mem [] (suc n) xs = none
copy_mem (b ∷ buffer) (suc n) xs = elim (copy_mem buffer n xs) [
  | none ↦ none
  | some rest ↦ some (b ∷ rest)
]

-- The loop that appends the strings, from Str on, and the last NUL
unfoldable pub append_strings : StringPack → List ℕ → ℕ → Option (List ℕ)
append_strings [] buffer str = copy_mem buffer str (0 ∷ [])
append_strings (s ∷ ss) buffer str = elim (copy_mem buffer str (s ++ (0 ∷ []))) [
  | none ↦ none
  | some buffer' ↦ append_strings ss buffer' (str + (length s + 1))
]

-- The record; none is an access out of bounds, as that of StringPack[0] where StringPack is NULL
unfoldable pub build_record : Template → Option StringPack → Option (List ℕ)
build_record t pack = elim (copy_mem (replicate (record_size t pack) 0) 0 (template_bytes t)) [
  | none ↦ none
  | some buffer ↦ elim pack [
    | none ↦ none
    | some strings ↦ append_strings strings buffer (template_length t)
  ]
]

-- LocateProtocol, AllocateZeroPool of a size, and Add, which gives a handle
pub record SmbiosServices : Type 0 where
  pub locate_smbios : Status
  pub allocates : ℕ → Bool
  pub add : List (List ℕ) → List ℕ → Status × ℕ

-- The records added, newest first, and whether ASSERT_EFI_ERROR has found an error
pub record SmbiosState : Type 0 where
  pub added : List (List ℕ)
  pub asserted : Bool

-- What a call of LogSmbiosData gives: its status, the caller's handle, and the state behind it
pub record Logged : Type 0 where
  pub status : Status
  pub handle : ℕ
  pub state : SmbiosState

module _ (w : SmbiosServices) where
  -- LogSmbiosData from Add on
  unfoldable pub add_record : List ℕ → ℕ → SmbiosState → Logged
  add_record bytes handle st =
      let r = w.add st.added bytes in
      if is_error r.0
      then record { status = r.0; handle = handle; state = record st { asserted = true } }
      else record { status = r.0; handle = r.1; state = record st { added = bytes ∷ st.added } }

  -- LogSmbiosData, for a caller whose handle is `handle` before the call; none is a fault
  unfoldable pub log_smbios_data : Template → Option StringPack → ℕ → SmbiosState → Option Logged
  log_smbios_data t pack handle st =
      if is_error w.locate_smbios
      then some (record { status = w.locate_smbios; handle = handle; state = st })
      else if w.allocates (record_size t pack)
      then elim (build_record t pack) [
        | none ↦ none
        | some bytes ↦ some (add_record bytes handle st)
      ]
      else some (record { status = out_of_resources; handle = handle; state = st })
