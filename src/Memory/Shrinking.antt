-- ===== src/Memory/Shrinking.antt =====
-- The steps of the T810X family's MemoryPeim: none of them gives system memory a byte back, but
-- for the low memory window.
use apple_silicon_platforms.Prelude.{
  ℕ, zero, suc, ◌+◌, ◌^◌, ◌≤◌, ◌<◌, ◌≡◌, refl, true, Option, none, some, List, [], ◌∷◌, ◌==◌, arith,
  All, Bool-cases, inl, inr,
}
use apple_silicon_platforms.Platform.Adt.{Adt}
use apple_silicon_platforms.Memory.Hobs.{
  ResourceHob, MemoryPcds, append_built, declare_memory, holds_firmware, split_hob, split_firmware,
  memory_peim,
}
use apple_silicon_platforms.Memory.Partition.{in_region, Ends64, declare_memory-Ends64}
use apple_silicon_platforms.Memory.Reserve.{HobList, MemoryType, reserve_memory_region}
use apple_silicon_platforms.Memory.Safety.{
  system_coverage, system_coverage-append, All-append, IsSound, reserve_memory_region-IsSound,
  reserve_memory_region-system_coverage,
}
use apple_silicon_platforms.Memory.Peim.{
  PlatformPcds, allocate_firmware, declare_resources, carveout, reserve_carveout, reserve_carveouts,
  reserve_ramdisk, declare_low_memory, reserve_frame_buffer, reserve_regions,
}

-- A region that does not wrap around.
abbrev pub Fits : ℕ × ℕ → Type 0
Fits r = r.0 + r.1 < 2 ^ 64

-- What the configuration keeps to: 64-bit values, and regions that do not wrap around.
pub record IsInRange (p : PlatformPcds) : Type 0 where
  pub memory_fits : p.memory.memory_base + p.memory.memory_size < 2 ^ 64
  pub fd_fits : p.memory.fd_base + p.memory.fd_size < 2 ^ 64
  pub ramdisk_fits : p.preloaded_ramdisk_base + p.preloaded_ramdisk_max_size < 2 ^ 64
  pub window_fits : p.low_memory_window_base + p.low_memory_window_size < 2 ^ 64
  pub backing_fits : p.low_memory_window_backing_base + p.low_memory_window_size < 2 ^ 64
  pub address_fits : p.frame_buffer_address < 2 ^ 64
  pub size_fits : p.frame_buffer_size < 2 ^ 64

-- MemoryPeim's descriptors do not wrap around.
split_hob-Ends64 :
    (p : MemoryPcds) (h : ResourceHob)
    → Ends64 h
    → p.fd_base + p.fd_size < 2 ^ 64
    → holds_firmware p h ≡ true
    → Ends64 (split_hob p h).0 × All Ends64 (split_hob p h).1
unfolding split_hob holds_firmware
split_hob-Ends64 p h small fd holds = ground arith

split_firmware-Ends64 :
    (p : MemoryPcds) (hs : List ResourceHob)
    → All Ends64 hs
    → p.fd_base + p.fd_size < 2 ^ 64
    → All Ends64 (append_built hs (split_firmware p hs))
unfolding split_firmware append_built
split_firmware-Ends64 p [] small fd = tt
split_firmware-Ends64 p (h ∷ hs) small fd = elim (Bool-cases (holds_firmware p h)) [
  | inl holds ↦
      let split = split_hob-Ends64 p h small.0 fd holds in
      rw holds (split.0, All-append hs (split_hob p h).1 small.1 split.1)
  | inr other ↦ rw other (later (split_firmware p hs) (split_firmware-Ends64 p hs small.1 fd))
]
  where
    later :
        (r : Option (List ResourceHob × List ResourceHob))
        → All Ends64 (append_built hs r)
        → All Ends64 (append_built (h ∷ hs) (elim r [ none ↦ none | some q ↦ some (h ∷ q.0, q.1) ]))
    later none e = (small.0, small.1)
    later (some q) e = (small.0, e)

memory_peim-Ends64 :
    (p : MemoryPcds) (hs : List ResourceHob)
    → All Ends64 hs
    → p.memory_base + p.memory_size < 2 ^ 64
    → p.fd_base + p.fd_size < 2 ^ 64
    → All Ends64 (memory_peim p hs)
unfolding memory_peim
memory_peim-Ends64 p hs small memory fd =
    let declared = declare_memory-Ends64 p hs small memory in
    ground (arith, declared, split_firmware-Ends64 p (declare_memory p hs) declared fd)

allocate_firmware-handoff :
    (type : MemoryType) (p : MemoryPcds) (l : HobList)
    → (allocate_firmware type p l).handoff ≡ l.handoff
unfolding allocate_firmware
allocate_firmware-handoff type p l = ground arith

pub declare_resources-IsSound :
    (type : MemoryType) (p : MemoryPcds) (l : HobList)
    → IsSound l
    → p.memory_base + p.memory_size < 2 ^ 64
    → p.fd_base + p.fd_size < 2 ^ 64
    → IsSound (declare_resources type p l)
unfolding declare_resources
declare_resources-IsSound type p l sound memory fd = record {
  table = rw (allocate_firmware-handoff type p l) sound.table;
  ends = memory_peim-Ends64 p l.resources sound.ends memory fd;
}

-- The list stays sound, and the address is in no more descriptors of system memory than before.
pub record Shrinks (x : ℕ) (l l' : HobList) : Type 0 where
  pub sound : IsSound l'
  pub fewer : system_coverage x l'.resources ≤ system_coverage x l.resources

Shrinks-trans : {x : ℕ} {l m n : HobList} → Shrinks x l m → Shrinks x m n → Shrinks x l n
Shrinks-trans s t = record { sound = t.sound; fewer = omega (arith, s.fewer, t.fewer) }

Shrinks-refl : (x : ℕ) (l : HobList) → IsSound l → Shrinks x l l
Shrinks-refl x l sound = record { sound = sound; fewer = omega arith }

module _ (x : ℕ) where
  reserve-Shrinks :
      (base size : ℕ) (l : HobList)
      → base + size < 2 ^ 64
      → IsSound l
      → Shrinks x l (reserve_memory_region base size l)
  reserve-Shrinks base size l fits sound = record {
    sound = reserve_memory_region-IsSound base size fits l sound;
    fewer = omega (arith, reserve_memory_region-system_coverage base size fits l sound x);
  }

  reserve_carveout-Shrinks :
      (r : Option (ℕ × ℕ)) (l : HobList)
      → ((region : ℕ × ℕ) → r ≡ some region → Fits region)
      → IsSound l
      → Shrinks x l (reserve_carveout r l)
  unfolding reserve_carveout
  reserve_carveout-Shrinks none l fits sound = Shrinks-refl x l sound
  reserve_carveout-Shrinks (some r) l fits sound = reserve-Shrinks r.0 r.1 l (fits r refl) sound

  reserve_carveouts-Shrinks :
      (adt : Adt) (cpu_node : ℕ → Option ℕ) (rounds i : ℕ) (l : HobList)
      → ((i : ℕ) (region : ℕ × ℕ) → carveout adt (cpu_node i) ≡ some region → Fits region)
      → IsSound l
      → Shrinks x l (reserve_carveouts adt cpu_node rounds i l)
  unfolding reserve_carveouts
  reserve_carveouts-Shrinks adt cpu_node zero i l fits sound = Shrinks-refl x l sound
  reserve_carveouts-Shrinks adt cpu_node (suc rounds) i l fits sound =
      let first = reserve_carveout-Shrinks (carveout adt (cpu_node i)) l (fits i) sound in
      Shrinks-trans first (
        reserve_carveouts-Shrinks adt cpu_node rounds (i + 1)
          (reserve_carveout (carveout adt (cpu_node i)) l) fits first.sound)

  reserve_ramdisk-Shrinks :
      (p : PlatformPcds) (l : HobList)
      → p.preloaded_ramdisk_base + p.preloaded_ramdisk_max_size < 2 ^ 64
      → IsSound l
      → Shrinks x l (reserve_ramdisk p l)
  unfolding reserve_ramdisk
  reserve_ramdisk-Shrinks p l fits sound =
      let kept = Shrinks-refl x l sound in
      let cut =
        reserve-Shrinks p.preloaded_ramdisk_base p.preloaded_ramdisk_max_size l fits sound in
      elim (Bool-cases (p.preloaded_ramdisk_base == 0)) [
        | inl e ↦ rw e kept
        | inr e ↦ rw e (elim (Bool-cases (p.preloaded_ramdisk_max_size == 0)) [
          | inl f ↦ rw f kept
          | inr f ↦ rw f cut
        ])
      ]

  declare_low_memory-Shrinks :
      (p : PlatformPcds) (attribute : ℕ) (l : HobList)
      → p.low_memory_window_base + p.low_memory_window_size < 2 ^ 64
      → p.low_memory_window_backing_base + p.low_memory_window_size < 2 ^ 64
      → in_region x p.low_memory_window_base p.low_memory_window_size ≡ 0
      → IsSound l
      → Shrinks x l (declare_low_memory p attribute l)
  unfolding declare_low_memory
  declare_low_memory-Shrinks p attribute l window backing outside sound =
      let m = reserve_memory_region p.low_memory_window_backing_base p.low_memory_window_size l in
      let cut =
        reserve-Shrinks p.low_memory_window_backing_base p.low_memory_window_size l backing sound in
      elim (Bool-cases (p.low_memory_window_size == 0)) [
        | inl e ↦ rw e (Shrinks-refl x l sound)
        | inr e ↦ rw e (record {
          sound = record {
            table = cut.sound.table;
            ends = All-append m.resources _ cut.sound.ends (window, tt);
          };
          fewer = omega (arith, system_coverage-append x m.resources, cut.fewer, outside);
        })
      ]

  pub reserve_regions-Shrinks :
      (adt : Adt) (cpu_node : ℕ → Option ℕ) (p : PlatformPcds) (attribute : ℕ) (l : HobList)
      → IsInRange p
      → ((i : ℕ) (region : ℕ × ℕ) → carveout adt (cpu_node i) ≡ some region → Fits region)
      → in_region x p.low_memory_window_base p.low_memory_window_size ≡ 0
      → IsSound (reserve_frame_buffer p l)
      → Shrinks x (reserve_frame_buffer p l) (reserve_regions adt cpu_node p attribute l)
  unfolding reserve_regions
  reserve_regions-Shrinks adt cpu_node p attribute l range fits outside sound =
      let carved = reserve_carveouts adt cpu_node p.core_count 0 (reserve_frame_buffer p l) in
      let a =
        reserve_carveouts-Shrinks adt cpu_node p.core_count 0 (reserve_frame_buffer p l) fits
          sound in
      let b = reserve_ramdisk-Shrinks p carved range.ramdisk_fits a.sound in
      let c =
        declare_low_memory-Shrinks p attribute (reserve_ramdisk p carved) range.window_fits
          range.backing_fits outside b.sound in
      Shrinks-trans a (Shrinks-trans b c)
