-- ===== src/Memory/Safety.antt =====
-- What a reservation does to the memory that DXE may allocate from, and that the framebuffer is
-- out of it.
use apple_silicon_platforms.Prelude.{
  ℕ, ◌+◌, ◌^◌, ◌<◌, ◌≡◌, refl, ap, ◌∙◌, true, false, Option, none, some, List, [], ◌∷◌, ◌++◌,
  if◌then◌else◌, arith, All, Bool-cases, inl, inr,
}
use apple_silicon_platforms.Memory.Hobs.{ResourceHob, append_built}
use apple_silicon_platforms.Memory.Partition.{in_region, Ends64}
use apple_silicon_platforms.Memory.Reserve.{
  HobList, covers, punch_hole, reserve_in, reserve_memory_region, any_covers, store_found,
}

-- The number of system memory descriptors that have an address.
abbrev pub system_coverage : ℕ → List ResourceHob → ℕ
system_coverage x [] = 0
system_coverage x (h ∷ hs) =
    (if h.is_system_memory then in_region x h.physical_start h.resource_length else 0)
    + system_coverage x hs

pub system_coverage-append :
    (x : ℕ) (hs gs : List ResourceHob)
    → system_coverage x (hs ++ gs) ≡ system_coverage x hs + system_coverage x gs
system_coverage-append x [] gs = omega arith
system_coverage-append x (h ∷ hs) gs = omega (arith, system_coverage-append x hs gs)

pub All-append : (hs gs : List ResourceHob) → All Ends64 hs → All Ends64 gs → All Ends64 (hs ++ gs)
All-append [] gs h k = k
All-append (x ∷ hs) gs h k = (h.0, All-append hs gs h.1 k)

module _ (base size : ℕ) (no_wrap : base + size < 2 ^ 64) where
  punch_hole-system_coverage :
      (h : ResourceHob) (x : ℕ)
      → Ends64 h
      → covers base size h ≡ true
      → system_coverage x ((punch_hole base size h).0 ∷ (punch_hole base size h).1)
          + in_region x base size
        ≡ (if h.is_system_memory then in_region x h.physical_start h.resource_length else 0)
  unfolding covers punch_hole
  punch_hole-system_coverage h x small c = ground arith

  punch_hole-Ends64 :
      (h : ResourceHob)
      → Ends64 h
      → covers base size h ≡ true
      → Ends64 (punch_hole base size h).0 × All Ends64 (punch_hole base size h).1
  unfolding covers punch_hole
  punch_hole-Ends64 h small c = ground arith

  reserve_in-system_coverage :
      (hs : List ResourceHob) (x : ℕ)
      → All Ends64 hs
      → system_coverage x (append_built hs (reserve_in base size hs))
          + (if any_covers base size hs then in_region x base size else 0)
        ≡ system_coverage x hs
  unfolding reserve_in append_built any_covers
  reserve_in-system_coverage [] x small = refl
  reserve_in-system_coverage (h ∷ hs) x small = elim (Bool-cases (covers base size h)) [
    | inl c ↦ rw c (
        omega (
          arith,
          system_coverage-append x hs (punch_hole base size h).1,
          punch_hole-system_coverage h x small.0 c,
        ))
    | inr c ↦ rw c (later (reserve_in base size hs) (reserve_in-system_coverage hs x small.1))
  ]
    where
      later :
          (r : Option (List ResourceHob × List ResourceHob))
          → system_coverage x (append_built hs r)
              + (if any_covers base size hs then in_region x base size else 0)
            ≡ system_coverage x hs
          → system_coverage x
                (append_built (h ∷ hs) (elim r [ none ↦ none | some q ↦ some (h ∷ q.0, q.1) ]))
              + (if any_covers base size hs then in_region x base size else 0)
            ≡ system_coverage x (h ∷ hs)
      later none e = omega (arith, e)
      later (some q) e = omega (arith, e)

  reserve_in-Ends64 :
      (hs : List ResourceHob)
      → All Ends64 hs
      → All Ends64 (append_built hs (reserve_in base size hs))
  unfolding reserve_in append_built
  reserve_in-Ends64 [] small = tt
  reserve_in-Ends64 (h ∷ hs) small = elim (Bool-cases (covers base size h)) [
    | inl c ↦
        let punched = punch_hole-Ends64 h small.0 c in
        rw c (punched.0, All-append hs (punch_hole base size h).1 small.1 punched.1)
    | inr c ↦ rw c (later (reserve_in base size hs) (reserve_in-Ends64 hs small.1))
  ]
    where
      later :
          (r : Option (List ResourceHob × List ResourceHob))
          → All Ends64 (append_built hs r)
          → All Ends64
              (append_built (h ∷ hs) (elim r [ none ↦ none | some q ↦ some (h ∷ q.0, q.1) ]))
      later none e = (small.0, small.1)
      later (some q) e = (small.0, e)

-- A list of hand-off blocks whose regions do not wrap around and whose hand-off table does not read
-- as a descriptor of system memory.
pub record IsSound (l : HobList) : Type 0 where
  pub table : l.handoff.is_system_memory ≡ false
  pub ends : All Ends64 l.resources

store_found-resources :
    (l : HobList) (r : Option (List ResourceHob × List ResourceHob))
    → (store_found l r).resources ≡ append_built l.resources r
unfolding store_found append_built
store_found-resources l none = refl
store_found-resources l (some q) = refl

store_found-handoff :
    (l : HobList) (r : Option (List ResourceHob × List ResourceHob))
    → (store_found l r).handoff ≡ l.handoff
unfolding store_found
store_found-handoff l none = refl
store_found-handoff l (some q) = refl

module _ (base size : ℕ) (no_wrap : base + size < 2 ^ 64) (l : HobList) (sound : IsSound l) where
  table-not_covered : covers base size l.handoff ≡ false
  unfolding covers
  table-not_covered = ground (arith, sound.table)

  reserve_resources :
      (reserve_memory_region base size l).resources
      ≡ append_built l.resources (reserve_in base size l.resources)
  unfolding reserve_memory_region
  reserve_resources =
      rw table-not_covered (store_found-resources l (reserve_in base size l.resources))

  reserve_handoff : (reserve_memory_region base size l).handoff ≡ l.handoff
  unfolding reserve_memory_region
  reserve_handoff = rw table-not_covered (store_found-handoff l (reserve_in base size l.resources))

  pub reserve_memory_region-IsSound : IsSound (reserve_memory_region base size l)
  reserve_memory_region-IsSound = record {
    table = ap (λ (h : ResourceHob). h.is_system_memory) reserve_handoff ∙ sound.table;
    ends = rw reserve_resources (reserve_in-Ends64 base size no_wrap l.resources sound.ends);
  }

  -- ReserveMemoryRegion, where no region wraps around and the hand-off table does not read as a
  -- descriptor of system memory: if some descriptor of system memory covers the region, each
  -- address of the region is in one descriptor of system memory less than before, and every other
  -- address in as many as before; if none does, no address is in more or fewer.
  pub reserve_memory_region-system_coverage :
      (x : ℕ)
      → system_coverage x (reserve_memory_region base size l).resources
          + (if any_covers base size l.resources then in_region x base size else 0)
        ≡ system_coverage x l.resources
  reserve_memory_region-system_coverage x =
      rw reserve_resources (reserve_in-system_coverage base size no_wrap l.resources x sound.ends)
