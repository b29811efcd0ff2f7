-- ===== src/Acpi/Blocks.antt =====
-- What one block of the entry point installs.
use apple_silicon_platforms.Prelude.{
  ℕ, zero, suc, ◌+◌, ◌%◌, ◌≤◌, ◌<◌, ◌≡◌, ◌≢◌, refl, sym, ap, ◌∙◌, true, false, leb, some, List, [],
  ◌∷◌, ◌++◌, length, get_elem?, take, length-take, arith, All,
}
use mathlib.Core.List.{append-nil, append_assoc}
use apple_silicon_platforms.Platform.Status.{is_error}
use apple_silicon_platforms.Acpi.Checksum.{
  sum, checksum_offset, header_length, acpi_platform_checksum_lem,
}
use apple_silicon_platforms.Acpi.Volumes.{
  StorageFile, FirmwareVolume, VolumeHandles, Lacks, search_volumes, search_volumes-first,
  locate_fv_instance,
}
use apple_silicon_platforms.Acpi.Install.{
  AcpiServices, AcpiState, Exit, next, and_then, install_buffer, install_section, install_sections,
  install_block,
}

-- A table as it is to be installed from a section: as long as its header says, its bytes the
-- section's but for the checksum, and adding up to 0 modulo 256.
pub record IsTableOf (section table : List ℕ) : Type 0 where
  pub long : header_length section ≡ some (length table)
  pub bytes :
      (i : ℕ) → i ≢ checksum_offset → i < length table → get_elem? table i ≡ get_elem? section i
  pub checked : sum table % 256 ≡ 0

-- A section whose header says a length that holds the checksum and that the section has.
pub record IsSection (section : List ℕ) : Type 0 where
  pub size : ℕ
  pub header : header_length section ≡ some size
  pub holds : checksum_offset < size
  pub fits : size ≤ length section

abbrev pub Tables : List (List ℕ) → List (List ℕ) → Type 0
Tables [] [] = Unit {0}
Tables [] (t ∷ ts) = ⊥
Tables (s ∷ ss) [] = ⊥
Tables (s ∷ ss) (t ∷ ts) = IsTableOf s t × Tables ss ts

-- The file's sections in the volume are those of the list.
abbrev pub Holds : FirmwareVolume → StorageFile → List (List ℕ) → Type 0
Holds v file sections = (i : ℕ) → v.read_section file i ≡ get_elem? sections i

get_elem?-take : (n i : ℕ) (xs : List ℕ) → i < n → get_elem? (take n xs) i ≡ get_elem? xs i
get_elem?-take zero i xs h = elim h [ ]
get_elem?-take (suc n) i [] h = refl
get_elem?-take (suc n) zero (x ∷ xs) h = refl
get_elem?-take (suc n) (suc i) (x ∷ xs) h = get_elem?-take n i xs (omega arith)

Tables-append :
    (ss ts ss' ts' : List (List ℕ)) → Tables ss ts → Tables ss' ts' → Tables (ss ++ ss') (ts ++ ts')
Tables-append [] [] ss' ts' h k = k
Tables-append [] (t ∷ ts) ss' ts' h k = absurd h
Tables-append (s ∷ ss) [] ss' ts' h k = absurd h
Tables-append (s ∷ ss) (t ∷ ts) ss' ts' h k = (h.0, Tables-append ss ts ss' ts' h.1 k)

-- InstallAcpiTable never fails.
abbrev pub Accepts : AcpiServices → Type 0
Accepts s = (ts : List (List ℕ)) (t : List ℕ) → is_error (s.install_acpi_table ts t) ≡ false

-- A state with further tables.
abbrev pub with_tables : AcpiState → List (List ℕ) → AcpiState
with_tables st ts = record st { tables = st.tables ++ ts }

module _ (s : AcpiServices) (accepts : Accepts s) where
  fits_lem : {section : List ℕ} (ok : IsSection section) → leb ok.size (length section) ≡ true
  fits_lem ok = ground (arith, ok.fits)

  install_section_lem :
      (section : List ℕ) (st : AcpiState)
      → IsSection section
      → (t : List ℕ) × IsTableOf section t
        × (install_section s section (header_length section) st ≡ (next, with_tables st (t ∷ [])))
  unfolding install_section install_buffer
  install_section_lem section st ok =
      let (buffer, made, long, checked, same) =
        acpi_platform_checksum_lem s.checksum_lib section ok.size ok.holds ok.fits in
      let n = length-take ok.size buffer (omega (arith, long, ok.fits)) in
      (
        take ok.size buffer,
        record {
          long = ok.header ∙ ap some (sym n);
          bytes = λ i ne lt. get_elem?-take ok.size i buffer (omega (arith, n)) ∙ same i ne;
          checked = checked;
        },
        rw ok.header
            (rw made (rw (fits_lem ok) (rw (accepts st.tables (take ok.size buffer)) refl))),
      )

  install_sections_lem :
      (v : FirmwareVolume) (file : StorageFile) (fuel k : ℕ) (rest : List (List ℕ)) (st : AcpiState)
      → ((i j : ℕ) → k + i ≡ j → v.read_section file j ≡ get_elem? rest i)
      → All IsSection rest
      → length rest < fuel
      → (ts : List (List ℕ)) × Tables rest ts
        × (install_sections s v file fuel k st ≡ (next, with_tables st ts))
  unfolding install_sections
  install_sections_lem v file zero k rest st h ok enough = absurd (omega arith)
  install_sections_lem v file (suc fuel) k [] st h ok enough = (
    [],
    tt,
    rw (h 0 k (omega arith), install_sections)
        (ap (λ l. (next, record st { tables = l })) (sym (append-nil st.tables))),
  )
  install_sections_lem v file (suc fuel) k (section ∷ rest) st h ok enough =
      let (t, table, run) = install_section_lem section st ok.0 in
      let (ts, tables, runs) =
        install_sections_lem v file fuel (k + 1) rest (with_tables st (t ∷ []))
          (λ i j e. h (suc i) j (omega arith)) ok.1 (omega arith) in
      (
        t ∷ ts,
        (table, tables),
        rw (h 0 k (omega arith), install_sections)
            (rw run (
              runs
              ∙ ap (λ l. (next, record st { tables = l })) (append_assoc st.tables (t ∷ []) ts))),
      )

-- The first volume with the file holds these sections, each of them a table with its header.
pub record Stored (handles : VolumeHandles) (file : StorageFile) (sections : List (List ℕ))
    : Type 0 where
  pub volume : FirmwareVolume
  pub before : List FirmwareVolume
  pub after : List FirmwareVolume
  pub split : handles.volumes ≡ before ++ (volume ∷ after)
  pub lacks : All (Lacks file) before
  pub has : is_error (volume.read_file file) ≡ false
  pub holds : Holds volume file sections
  pub tables : All IsSection sections

-- What a run of blocks has done: it goes on, with tables of these sections behind the others.
pub record Installs (r : Exit × AcpiState) (st : AcpiState) (sections : List (List ℕ))
    : Type 0 where
  pub installed : List (List ℕ)
  pub of_sections : Tables sections installed
  pub outcome : r ≡ (next, with_tables st installed)

module _ (s : AcpiServices) (accepts : Accepts s) (found : is_error s.handles.status ≡ false)
    (fuel : ℕ) where
  located :
      (file : StorageFile) (sections : List (List ℕ)) (h : Stored s.handles file sections)
      → locate_fv_instance file s.handles ≡ (h.volume.read_file file, some h.volume)
  unfolding locate_fv_instance
  located file sections h = rw found (
      ap (search_volumes file s.handles.status) h.split
      ∙ search_volumes-first file s.handles.status h.before h.after h.volume h.lacks h.has)

  pub install_block-Installs :
      (file : StorageFile) (sections : List (List ℕ)) (st : AcpiState)
      → Stored s.handles file sections
      → length sections < fuel
      → Installs (install_block s fuel file (locate_fv_instance file s.handles) st) st sections
  unfolding install_block
  install_block-Installs file sections st h enough =
      let (ts, tables, run) =
        install_sections_lem s accepts h.volume file fuel 0 sections st
          (λ i j e. ap (h.volume.read_section file) (omega (arith, e)) ∙ h.holds i) h.tables
          enough in
      record {
        installed = ts;
        of_sections = tables;
        outcome = rw (located file sections h) (rw h.has run);
      }

  -- One run behind another.
  pub Installs-and_then :
      (r : Exit × AcpiState) (f : AcpiState → Exit × AcpiState) (st : AcpiState)
      (ss ss' : List (List ℕ))
      → Installs r st ss
      → ((st' : AcpiState) → Installs (f st') st' ss')
      → Installs (and_then r f) st (ss ++ ss')
  Installs-and_then r f st ss ss' a b =
      let c = b (with_tables st a.installed) in
      record {
        installed = a.installed ++ c.installed;
        of_sections = Tables-append ss a.installed ss' c.installed a.of_sections c.of_sections;
        outcome =
            ap (λ q. and_then q f) a.outcome
            ∙ c.outcome
            ∙ ap (λ l. (next, record st { tables = l }))
                (append_assoc st.tables a.installed c.installed);
      }
