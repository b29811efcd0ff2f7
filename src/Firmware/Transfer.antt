-- ===== src/Firmware/Transfer.antt =====
-- The upload loop writes the image's words, each once and in order, to a controller whose address
-- register moves on.
use apple_silicon_platforms.Prelude.{
  ℕ, zero, suc, ◌+◌, ◌*◌, ◌%◌, ◌^◌, ◌≤◌, ◌<◌, ◌≡◌, ◌≢◌, ◌⊎◌, refl, ap, ◌∙◌, Bool, true, false, some,
  List, [], ◌∷◌, length, get_elem?, All, rev_onto, bit_or, ltb, ltb→lt, ◌==◌, ==-false,
  if◌then◌else◌, Bool-cases, inl, inr, arith,
}
use apple_silicon_platforms.Platform.Status.{is_error}
use apple_silicon_platforms.Platform.Io.{
  Device, Trace, ret, Returns, Returns-proceed, Returns-weaken, load, store, pci_memory,
  pci_configuration, pci_access,
}
use apple_silicon_platforms.Firmware.Registers.{asmedia_register_code_write_data}
use apple_silicon_platforms.Firmware.Upload.{
  asmedia_configuration_sram_addr_reg, firmware_word, wait_address, upload_words,
}
use apple_silicon_platforms.Firmware.Words.{
  position, word_count, half, word, next_index-position, bit_or-position, position-lt_iff,
  position-not_lt, bit_or-disjoint, position_covers,
}

-- The address that was written to the SRAM address register last.
abbrev pub last_address : Trace → ℕ
last_address [] = 0
last_address (store (pci_configuration a) v ∷ t) = if a == 0xE2 then v else last_address t
last_address (_ ∷ t) = last_address t

-- The words that were written to the code register, newest first, each with its address.
abbrev pub programmed : Trace → List (ℕ × ℕ)
programmed [] = []
programmed (store (pci_memory a) v ∷ t) =
    if a == 0x3010 then (last_address t, v) ∷ programmed t else programmed t
programmed (_ ∷ t) = programmed t

-- `n` words of the image from the k-th on, each with its address.
abbrev pub image : List ℕ → ℕ → ℕ → List (ℕ × ℕ)
image firmware zero k = []
image firmware (suc n) k = (2 * k % 2 ^ 16, word firmware k) ∷ image firmware n (k + 1)

abbrev pub Halves : List ℕ → Type 0
Halves firmware = All (λ h. h < 2 ^ 16) firmware

-- The accesses of the controller do not fail, and its address register, read behind the write of a
-- word, has moved on from the address that was written.
pub record IsResponsive (d : Device) : Type 0 where
  pub reliable : (t : Trace) → is_error (d.reply t pci_access) ≡ false
  pub moves :
      (t : Trace) (a w : ℕ)
      → d.value
            (store (pci_memory asmedia_register_code_write_data) w
              ∷ store (pci_configuration asmedia_configuration_sram_addr_reg) a
              ∷ t)
            (pci_configuration asmedia_configuration_sram_addr_reg)
          % 2 ^ 16
        ≢ a

half-lt : (firmware : List ℕ) (i : ℕ) → Halves firmware → half firmware i < 2 ^ 16
half-lt [] i h = omega arith
half-lt (x ∷ xs) zero h = h.0
half-lt (x ∷ xs) (suc i) h = half-lt xs i h.1

get_elem?-half :
    (firmware : List ℕ) (i : ℕ)
    → i < length firmware
    → get_elem? firmware i ≡ some (half firmware i)
get_elem?-half [] i h = elim h [ ]
get_elem?-half (x ∷ xs) zero h = refl
get_elem?-half (x ∷ xs) (suc i) h = get_elem?-half xs i (omega arith)

half-behind : (firmware : List ℕ) (i : ℕ) → length firmware ≤ i → half firmware i ≡ 0
half-behind [] i h = refl
half-behind (x ∷ xs) zero h = absurd (omega arith)
half-behind (x ∷ xs) (suc i) h = half-behind xs i (omega arith)

module _ (d : Device) (firmware : List ℕ) (halves : Halves firmware) where
  word_at_lem :
      (k : ℕ) (t : Trace)
      → position k < length firmware
      → firmware_word firmware (length firmware) (position k) d t ≡ ret (word firmware k) t
  unfolding firmware_word
  word_at_lem k t h =
      let at_low = get_elem?-half firmware (position k) h in
      let low_lt = half-lt firmware (position k) halves in
      let high_lt = half-lt firmware (position k + 0x4000) halves in
      rw at_low (
        rw (bit_or-position k) (elim (Bool-cases (ltb (position k + 0x4000) (length firmware))) [
          | inl e ↦ rw e (
              rw (get_elem?-half firmware (position k + 0x4000) (ground arith)) (
                ap (λ w. ret w t)
                  (ap (bit_or (half firmware (position k))) (omega (arith, high_lt))
                    ∙ bit_or-disjoint 16 (half firmware (position k))
                        (half firmware (position k + 0x4000)) low_lt)))
          | inr e ↦ rw e (
              ap (λ w. ret w t)
                (omega (arith, half-behind firmware (position k + 0x4000) (ground arith))))
        ]))

  -- The run is complete, and has written `n` words from the k-th on.
  abbrev Programs : ℕ → ℕ → Trace → Bool → Trace → Type 0
  Programs n k t complete u =
      (complete ≡ true) × (programmed u ≡ rev_onto (image firmware n k) (programmed t))

  module _ (responsive : IsResponsive d) (rounds : ℕ) where
    -- The wait behind a word ends with its first read.
    wait_address_lem :
        (addr w : ℕ) (t : Trace)
        → let u =
            store (pci_memory asmedia_register_code_write_data) w
            ∷ store (pci_configuration asmedia_configuration_sram_addr_reg) (addr % 2 ^ 16)
            ∷ t in
          Returns
            (λ moved v.
              (v ≡ load (pci_configuration asmedia_configuration_sram_addr_reg) ∷ u)
              × ((moved == addr) ≡ false))
            (wait_address (suc rounds) addr 0 d u)
    unfolding wait_address
    wait_address_lem addr w t =
        let u : Trace =
          store (pci_memory asmedia_register_code_write_data) w
          ∷ store (pci_configuration asmedia_configuration_sram_addr_reg) (addr % 2 ^ 16)
          ∷ t in
        let v : ℕ = d.value u (pci_configuration asmedia_configuration_sram_addr_reg) % 2 ^ 16 in
        let away : (v == addr) ≡ false =
          ==-false v addr (λ e. responsive.moves t (addr % 2 ^ 16) w (omega (arith, e))) in
        rw (responsive.reliable u) (rw away (refl, away))

    upload_words_from :
        (n k fuel : ℕ) (t : Trace)
        → k + n ≡ word_count (length firmware)
        → n < fuel
        → length firmware < 2 ^ 62
        → Returns (Programs n k t) (
            upload_words
              (suc rounds)
              fuel
              firmware
              (length firmware)
              (position k)
              (2 * k % 2 ^ 64)
              d
              t)
    unfolding upload_words
    upload_words_from n k zero t e enough small = absurd (omega arith)
    upload_words_from zero k (suc fuel) t e enough small =
        rw (position-not_lt k (length firmware) (omega (arith, e)), upload_words) (refl, refl)
    upload_words_from (suc n) k (suc fuel) t e enough small =
        let below : ltb (position k) (length firmware) ≡ true =
          (position-lt_iff k (length firmware)).1 (omega (arith, e)) in
        let lt : position k < length firmware = ltb→lt _ _ below in
        let addr : ℕ = 2 * k % 2 ^ 64 in
        let t1 : Trace =
          store (pci_configuration asmedia_configuration_sram_addr_reg) (addr % 2 ^ 16) ∷ t in
        let t2 : Trace =
          store (pci_memory asmedia_register_code_write_data) (word firmware k % 2 ^ 32) ∷ t1 in
        rw (below, upload_words)
          (rw (word_at_lem k t lt) (
            rw (responsive.reliable t) (
              rw (responsive.reliable t1) (
                Returns-proceed _ _ (wait_address (suc rounds) addr 0 d t2) _ d
                  (wait_address_lem addr (word firmware k % 2 ^ 32) t)
                  (λ moved v h. rw h.1 (
                    rw (next_index-position k (omega (arith, lt, small))) (
                      rw next_addr (
                        Returns-weaken (Programs n (k + 1) v) (Programs (suc n) k t) _
                          (upload_words_from n (k + 1) fuel v (omega (arith, e))
                            (omega (arith, enough)) small)
                          (λ complete u g. (
                            g.0,
                            g.1
                                ∙ ap (rev_onto (image firmware n (k + 1)))
                                    (ap programmed h.0 ∙ ap (λ p. p ∷ programmed t) entry),
                          ))))))))))
      where
        next_addr : (2 * k % 2 ^ 64 + 2) % 2 ^ 64 ≡ 2 * (k + 1) % 2 ^ 64
        next_addr = omega arith

        entry :
            ◌≡◌ {A = ℕ × ℕ}
              (2 * k % 2 ^ 64 % 2 ^ 16, word firmware k % 2 ^ 32)
              (2 * k % 2 ^ 16, word firmware k)
        entry =
            let e1 : 2 * k % 2 ^ 64 % 2 ^ 16 ≡ 2 * k % 2 ^ 16 = omega arith in
            let e2 : word firmware k % 2 ^ 32 ≡ word firmware k = omega (
              arith,
              half-lt firmware (position k) halves,
              half-lt firmware (position k + 0x4000) halves,
            ) in
            λ i. (e1 i, e2 i)

-- The upload loop, of an image of less than 2 ^ 62 halves of 16 bits, to a controller whose accesses
-- do not fail and whose address register moves on behind each word, with more fuel than the image
-- has words: it comes to its end and reports that the image is complete. The words that it has
-- written to the code register are the image's, from the first to the last, the k-th at the
-- address 2 k modulo 2 ^ 16. Each half of the image is the low or the high half of one of them.
pub upload_words_lem :
    (d : Device) (firmware : List ℕ) (rounds fuel : ℕ) (t : Trace)
    → IsResponsive d
    → Halves firmware
    → length firmware < 2 ^ 62
    → word_count (length firmware) < fuel
    → Returns
        (λ complete u.
          (complete ≡ true)
          × (programmed u
              ≡ rev_onto (image firmware (word_count (length firmware)) 0) (programmed t)))
        (upload_words (suc rounds) fuel firmware (length firmware) 0 0 d t)
      × ((j : ℕ)
          → j < length firmware
          → (k : ℕ) × (k < word_count (length firmware))
            × ((position k ≡ j) ⊎ (position k + 0x4000 ≡ j)))
upload_words_lem d firmware rounds fuel t responsive halves small enough = (
  upload_words_from d firmware halves responsive rounds (word_count (length firmware)) 0 fuel t
      (omega arith) enough small,
  λ j h. position_covers j (length firmware) h,
)
