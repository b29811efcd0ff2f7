-- ===== src/Memory/FrameBuffer.antt =====
-- Behind the T810X family's MemoryPeim no descriptor of system memory has a byte of the
-- framebuffer, so that DXE cannot allocate it.
use apple_silicon_platforms.Prelude.{
  ℕ, ◌+◌, ◌%◌, ◌^◌, ◌≤◌, ◌<◌, ◌≡◌, refl, true, Option, some, arith,
}
use apple_silicon_platforms.Platform.Status.{success}
use apple_silicon_platforms.Platform.Adt.{Adt}
use apple_silicon_platforms.Display.Validation.{validate_framebuffer_range}
use apple_silicon_platforms.Display.Geometry.{validate_framebuffer_range_iff}
use apple_silicon_platforms.Memory.Hobs.{memory_peim}
use apple_silicon_platforms.Memory.Partition.{in_region}
use apple_silicon_platforms.Memory.Reserve.{HobList, boot_services_data, any_covers}
use apple_silicon_platforms.Memory.Safety.{
  system_coverage, IsSound, reserve_memory_region-IsSound, reserve_memory_region-system_coverage,
}
use apple_silicon_platforms.Memory.Peim.{
  PlatformPcds, declare_resources, carveout, reserve_frame_buffer, memory_peim_t810x,
  resource_attributes,
}
use apple_silicon_platforms.Memory.Shrinking.{
  Fits, IsInRange, declare_resources-IsSound, reserve_regions-Shrinks,
}

-- The reservation of a framebuffer that a descriptor covers takes its addresses out.
reserve_frame_buffer-takes_out :
    (p : PlatformPcds) (l : HobList) (x : ℕ)
    → p.frame_buffer_address + p.frame_buffer_size < 2 ^ 64
    → p.frame_buffer_size < 2 ^ 32
    → IsSound l
    → any_covers p.frame_buffer_address p.frame_buffer_size l.resources ≡ true
    → p.frame_buffer_address ≤ x
    → x < p.frame_buffer_address + p.frame_buffer_size
    → system_coverage x l.resources ≤ 1
    → IsSound (reserve_frame_buffer p l)
      × (system_coverage x (reserve_frame_buffer p l).resources ≡ 0)
unfolding reserve_frame_buffer
reserve_frame_buffer-takes_out p l x fits small sound covered lo hi once =
    let base = p.frame_buffer_address in
    let size = p.frame_buffer_size in
    let kept = reserve_memory_region-IsSound base size fits l sound in
    let cut = reserve_memory_region-system_coverage base size fits l sound x in
    let e : size % 2 ^ 32 ≡ size = omega arith in
    rw e (record { table = kept.table; ends = kept.ends }, ground (arith, covered, cut))

-- MemoryPeim of the T810X family, on any device tree: a configuration whose regions do not wrap
-- around, carveouts among them, and whose framebuffer passes the check; a hand-off list that does
-- not wrap around and whose table does not read as a descriptor of system memory; once the firmware
-- device is split off, a descriptor that covers the framebuffer, and no address of it in two of
-- them. Then MemoryPeim succeeds, and no descriptor of system memory has an address of the
-- framebuffer that is outside the low memory window.
pub memory_peim_t810x-frame_buffer :
    (adt : Adt) (cpu_node : ℕ → Option ℕ) (p : PlatformPcds) (l : HobList) (x : ℕ)
    → IsInRange p
    → ((i : ℕ) (region : ℕ × ℕ) → carveout adt (cpu_node i) ≡ some region → Fits region)
    → IsSound l
    → validate_framebuffer_range p.frame_buffer_address p.frame_buffer_size p.memory.memory_base
        p.memory.memory_size
      ≡ true
    → any_covers p.frame_buffer_address p.frame_buffer_size (memory_peim p.memory l.resources)
      ≡ true
    → system_coverage x (memory_peim p.memory l.resources) ≤ 1
    → p.frame_buffer_address ≤ x
    → x < p.frame_buffer_address + p.frame_buffer_size
    → in_region x p.low_memory_window_base p.low_memory_window_size ≡ 0
    → ((memory_peim_t810x adt cpu_node p l).0 ≡ success)
      × (system_coverage x (memory_peim_t810x adt cpu_node p l).1.resources ≡ 0)
unfolding memory_peim_t810x declare_resources
memory_peim_t810x-frame_buffer adt cpu_node p l x range fits sound valid covered once lo hi
      outside =
    let limits =
      (validate_framebuffer_range_iff p.frame_buffer_address p.frame_buffer_size
          p.memory.memory_base p.memory.memory_size range.address_fits range.size_fits
          (omega (arith, range.memory_fits)) (omega (arith, range.memory_fits))).0
        valid in
    let declared = declare_resources boot_services_data p.memory l in
    let ready =
      declare_resources-IsSound boot_services_data p.memory l sound range.memory_fits
        range.fd_fits in
    let taken =
      reserve_frame_buffer-takes_out p declared x (omega (arith, limits)) (omega (arith, limits))
        ready covered lo hi once in
    rw valid (
      refl,
      omega (
        arith,
        taken.1,
        (reserve_regions-Shrinks x adt cpu_node p (resource_attributes p.memory l.resources)
            declared range fits outside taken.0).fewer,
      ),
    )
