-- ===== src/Smbios/RoundTrip.antt =====
-- The records of LogSmbiosData against the SMBIOS specification's reading of a record.
use apple_silicon_platforms.Prelude.{
  ℕ, zero, suc, ◌≡◌, refl, sym, ap, ◌∙◌, Option, none, some, List, [], ◌∷◌, ◌++◌, Bool, true, false,
  length, take, ◌==◌, arith,
}
use apple_silicon_platforms.Smbios.Record.{
  Template, template_length, template_bytes, StringPack, build_record,
}
use apple_silicon_platforms.Smbios.Encode.{
  packed, terminator, append_assoc, append_nil, build_record_lem,
}

-- The SMBIOS specification's reading of a record: the structure of as many bytes as its Length says,
-- and the strings, each with its NUL, up to one more NUL, which is the record's last byte; a record
-- without strings ends with two NULs. A NUL that is missing, or bytes behind the last one, are no
-- record. `start` is the string's part that was read.
abbrev some_string : List ℕ → Option StringPack → Option StringPack
some_string s o = elim o [ none ↦ none | some ss ↦ some (s ∷ ss) ]

abbrev no_more : List ℕ → Option StringPack
no_more [] = some []
no_more (c ∷ cs) = none

abbrev pub read_strings : List ℕ → List ℕ → Option StringPack
read_strings start [] = none
read_strings start (c ∷ cs) = elim (c == 0) [
  | false ↦ read_strings (start ++ (c ∷ [])) cs
  | true ↦ elim start [ [] ↦ no_more cs | x ∷ xs ↦ some_string (x ∷ xs) (read_strings [] cs) ]
]

abbrev second_nul : List ℕ → Option StringPack
second_nul [] = none
second_nul (c ∷ cs) = elim (c == 0) [ true ↦ no_more cs | false ↦ none ]

abbrev pub read_string_set : List ℕ → Option StringPack
read_string_set [] = none
read_string_set (c ∷ cs) = elim (c == 0) [ true ↦ second_nul cs | false ↦ read_strings [] (c ∷ cs) ]

abbrev with_strings : List ℕ → Option StringPack → Option (List ℕ × StringPack)
with_strings fixed o = elim o [ none ↦ none | some ss ↦ some (fixed, ss) ]

abbrev pub drop : ℕ → List ℕ → List ℕ
drop zero xs = xs
drop (suc n) [] = []
drop (suc n) (x ∷ xs) = drop n xs

abbrev pub read_record : List ℕ → Option (List ℕ × StringPack)
read_record (kind ∷ size ∷ rest) =
    with_strings (take size (kind ∷ size ∷ rest)) (read_string_set (drop size (kind ∷ size ∷ rest)))
read_record _ = none

-- No character is a NUL.
abbrev pub no_nul : List ℕ → Bool
no_nul [] = true
no_nul (c ∷ cs) = elim (c == 0) [ true ↦ false | false ↦ no_nul cs ]

-- No string is empty, and no character is a NUL.
abbrev pub are_proper : StringPack → Bool
are_proper [] = true
are_proper ([] ∷ ss) = false
are_proper ((c ∷ cs) ∷ ss) = elim (no_nul (c ∷ cs)) [ true ↦ are_proper ss | false ↦ false ]

no_nul-cons :
    (c : ℕ) (cs : List ℕ) → no_nul (c ∷ cs) ≡ true → ((c == 0) ≡ false) × (no_nul cs ≡ true)
no_nul-cons c cs = pick (c == 0)
  where
    pick :
        (b : Bool)
        → elim b [ true ↦ false | false ↦ no_nul cs ] ≡ true
        → (b ≡ false) × (no_nul cs ≡ true)
    pick true e = cc
    pick false e = (refl, e)

are_proper-cons :
    (c : ℕ) (cs : List ℕ) (ss : StringPack)
    → are_proper ((c ∷ cs) ∷ ss) ≡ true
    → (no_nul (c ∷ cs) ≡ true) × (are_proper ss ≡ true)
are_proper-cons c cs ss = pick (no_nul (c ∷ cs))
  where
    pick :
        (b : Bool)
        → elim b [ true ↦ are_proper ss | false ↦ false ] ≡ true
        → (b ≡ true) × (are_proper ss ≡ true)
    pick true e = (refl, e)
    pick false e = cc

read_strings-other :
    (start : List ℕ) (c : ℕ) (cs : List ℕ)
    → (c == 0) ≡ false
    → read_strings start (c ∷ cs) ≡ read_strings (start ++ (c ∷ [])) cs
read_strings-other start c cs = ap (λ b. elim b as (λ _. Option StringPack) [
  | false ↦ read_strings (start ++ (c ∷ [])) cs
  | true ↦ elim start [ [] ↦ no_more cs | x ∷ xs ↦ some_string (x ∷ xs) (read_strings [] cs) ]
])

read_strings-characters :
    (start s rest : List ℕ)
    → no_nul s ≡ true
    → read_strings start (s ++ rest) ≡ read_strings (start ++ s) rest
read_strings-characters start [] rest e = ap (λ x. read_strings x rest) (sym (append_nil start))
read_strings-characters start (c ∷ cs) rest e =
    let (other, left) = no_nul-cons c cs e in
    read_strings-other start c (cs ++ rest) other
    ∙ read_strings-characters (start ++ (c ∷ [])) cs rest left
    ∙ ap (λ x. read_strings x rest) (append_assoc start (c ∷ []) cs)

read_strings-packed :
    (pack : StringPack)
    → are_proper pack ≡ true
    → read_strings [] (packed pack ++ (0 ∷ [])) ≡ some pack
read_strings-packed [] e = refl
read_strings-packed ([] ∷ ss) e = cc
read_strings-packed ((c ∷ cs) ∷ ss) e =
    let (characters, left) = are_proper-cons c cs ss e in
    let s = c ∷ cs in
    ap (read_strings []) (
      append_assoc (s ++ (0 ∷ [])) (packed ss) (0 ∷ [])
      ∙ append_assoc s (0 ∷ []) (packed ss ++ (0 ∷ [])))
    ∙ read_strings-characters [] s (0 ∷ (packed ss ++ (0 ∷ []))) characters
    ∙ ap (some_string s) (read_strings-packed ss left)

read_string_set-packed :
    (pack : StringPack)
    → are_proper pack ≡ true
    → read_string_set (packed pack ++ terminator pack) ≡ some pack
read_string_set-packed [] e = refl
read_string_set-packed ([] ∷ ss) e = cc
read_string_set-packed ((c ∷ cs) ∷ ss) e =
    let (characters, _) = are_proper-cons c cs ss e in
    let (other, _) = no_nul-cons c cs characters in
    let rest = ((cs ++ (0 ∷ [])) ++ packed ss) ++ (0 ∷ []) in
    ap
      (λ b. elim b as (λ _. Option StringPack) [
        | true ↦ second_nul rest
        | false ↦ read_strings [] (c ∷ rest)
      ])
      other
    ∙ read_strings-packed ((c ∷ cs) ∷ ss) e

take-append : (xs ys : List ℕ) → take (length xs) (xs ++ ys) ≡ xs
take-append [] ys = refl
take-append (x ∷ xs) ys = ap (λ r. x ∷ r) (take-append xs ys)

drop-append : (xs ys : List ℕ) → drop (length xs) (xs ++ ys) ≡ ys
drop-append [] ys = refl
drop-append (x ∷ xs) ys = drop-append xs ys

-- The record that LogSmbiosData builds from a structure and strings, none of them empty or with a
-- NUL in it, is written without leaving its pool, and is read back, by the SMBIOS specification's
-- rules, as the same structure and the same strings, with nothing behind its last NUL.
pub build_record-read_record :
    (t : Template) (pack : StringPack)
    → are_proper pack ≡ true
    → (bytes : List ℕ) × (build_record t (some pack) ≡ some bytes)
      × (read_record bytes ≡ some (template_bytes t, pack))
build_record-read_record t pack e =
    let strings = packed pack ++ terminator pack in
    let fixed = template_bytes t in
    let size : template_length t ≡ length fixed = omega arith in
    (
      fixed ++ strings,
      build_record_lem t pack,
      ap
            (λ n.
              with_strings (take n (fixed ++ strings))
                (read_string_set (drop n (fixed ++ strings))))
            size
          ∙ ap (λ f. with_strings f (read_string_set (drop (length fixed) (fixed ++ strings))))
              (take-append fixed strings)
          ∙ ap (λ r. with_strings fixed (read_string_set r)) (drop-append fixed strings)
          ∙ ap (with_strings fixed) (read_string_set-packed pack e),
    )
