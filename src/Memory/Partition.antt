-- ===== src/Memory/Partition.antt =====
-- The split around the firmware device is a partition: each address stays in as many descriptors.
use apple_silicon_platforms.Prelude.{
  ℕ, ◌+◌, ◌^◌, ◌<◌, ◌≡◌, refl, ◌∙◌, Bool, true, false, ◌&&◌, Option, none, some, List, [], ◌∷◌,
  ◌++◌, leb, ltb, if◌then◌else◌, arith, All, Bool-cases, inl, inr,
}
use apple_silicon_platforms.Memory.Hobs.{
  ResourceHob, MemoryPcds, default_attributes, system_memory_top, fd_top, holds_firmware, split_hob,
  split_firmware, append_built, declare_memory, declares_memory, memory_peim,
}

-- 1 for an address of the region, 0 for another.
abbrev pub in_region : ℕ → ℕ → ℕ → ℕ
in_region x start size = if leb start x && ltb x (start + size) then 1 else 0

-- The number of descriptors that have an address.
abbrev pub coverage : ℕ → List ResourceHob → ℕ
coverage x [] = 0
coverage x (h ∷ hs) = in_region x h.physical_start h.resource_length + coverage x hs

-- A region that ends below the top of the address space.
abbrev pub Ends64 : ResourceHob → Type 0
Ends64 h = h.physical_start + h.resource_length < 2 ^ 64

coverage-append :
    (x : ℕ) (hs gs : List ResourceHob) → coverage x (hs ++ gs) ≡ coverage x hs + coverage x gs
coverage-append x [] gs = omega arith
coverage-append x (h ∷ hs) gs = omega (arith, coverage-append x hs gs)

split_hob-coverage :
    (p : MemoryPcds) (h : ResourceHob) (x : ℕ)
    → Ends64 h
    → p.fd_base + p.fd_size < 2 ^ 64
    → holds_firmware p h ≡ true
    → in_region x (split_hob p h).0.physical_start (split_hob p h).0.resource_length
        + coverage x (split_hob p h).1
      ≡ in_region x h.physical_start h.resource_length
unfolding split_hob holds_firmware
split_hob-coverage p h x small fd holds = ground arith

split_firmware-coverage :
    (p : MemoryPcds) (x : ℕ) (hs : List ResourceHob)
    → All Ends64 hs
    → p.fd_base + p.fd_size < 2 ^ 64
    → coverage x (append_built hs (split_firmware p hs)) ≡ coverage x hs
unfolding split_firmware append_built
split_firmware-coverage p x [] small fd = refl
split_firmware-coverage p x (h ∷ hs) small fd = elim (Bool-cases (holds_firmware p h)) [
  | inl holds ↦ rw holds (
      omega
        (arith, coverage-append x hs (split_hob p h).1, split_hob-coverage p h x small.0 fd holds))
  | inr other ↦ rw other (later (split_firmware p hs) (split_firmware-coverage p x hs small.1 fd))
]
  where
    later :
        (r : Option (List ResourceHob × List ResourceHob))
        → coverage x (append_built hs r) ≡ coverage x hs
        → coverage x (append_built (h ∷ hs) (elim r [ none ↦ none | some q ↦ some (h ∷ q.0, q.1) ]))
          ≡ coverage x (h ∷ hs)
    later none e = refl
    later (some q) e = omega (arith, e)

declare_memory-coverage :
    (p : MemoryPcds) (x : ℕ) (hs : List ResourceHob)
    → coverage x (declare_memory p hs)
      ≡ coverage x hs
        + (if declares_memory p hs then 0 else in_region x p.memory_base p.memory_size)
unfolding declare_memory
declare_memory-coverage p x hs = elim (Bool-cases (declares_memory p hs)) [
  | inl e ↦ rw e (omega arith)
  | inr e ↦ rw e (coverage-append x hs _ ∙ omega arith)
]

pub declare_memory-Ends64 :
    (p : MemoryPcds) (hs : List ResourceHob)
    → All Ends64 hs
    → p.memory_base + p.memory_size < 2 ^ 64
    → All Ends64 (declare_memory p hs)
unfolding declare_memory
declare_memory-Ends64 p hs small memory = elim (Bool-cases (declares_memory p hs)) [
  | inl e ↦ rw e small
  | inr e ↦ rw e (append hs small)
]
  where
    append :
        (hs : List ResourceHob)
        → All Ends64 hs
        → All Ends64 (
            hs
            ++ (record {
              is_system_memory = true;
              attribute = default_attributes;
              physical_start = p.memory_base;
              resource_length = p.memory_size;
            }
                ∷ []))
    append [] h = (memory, tt)
    append (g ∷ gs) h = (h.0, append gs h.1)

-- MemoryPeim, where no region reaches the top of the address space: each address is in as many
-- resource descriptors as before, and in one more if it lies in system memory and no descriptor
-- declared that. So the split around the firmware device loses no memory and declares none twice.
pub memory_peim-coverage :
    (p : MemoryPcds) (hs : List ResourceHob) (x : ℕ)
    → All Ends64 hs
    → p.memory_base + p.memory_size < 2 ^ 64
    → p.fd_base + p.fd_size < 2 ^ 64
    → coverage x (memory_peim p hs)
      ≡ coverage x hs
        + (if declares_memory p hs then 0 else in_region x p.memory_base p.memory_size)
unfolding memory_peim
memory_peim-coverage p hs x small memory fd =
    split (leb p.memory_base p.fd_base && leb (fd_top p) (system_memory_top p))
    ∙ declare_memory-coverage p x hs
  where
    split :
        (b : Bool)
        → coverage x (
            if b
            then append_built (declare_memory p hs) (split_firmware p (declare_memory p hs))
            else declare_memory p hs)
          ≡ coverage x (declare_memory p hs)
    split true =
        split_firmware-coverage p x (declare_memory p hs) (declare_memory-Ends64 p hs small memory)
          fd
    split false = refl
