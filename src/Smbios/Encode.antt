-- ===== src/Smbios/Encode.antt =====
-- The bytes that LogSmbiosData builds.
use apple_silicon_platforms.Prelude.{
  ℕ, suc, ◌+◌, ◌≡◌, refl, sym, ap, ◌∙◌, Option, none, some, List, [], ◌∷◌, ◌++◌, length, replicate,
  arith,
}
use apple_silicon_platforms.Smbios.Record.{
  Template, template_length, template_bytes, StringPack, string_sizes, record_size, copy_mem,
  append_strings, build_record,
}

abbrev pub zeros : ℕ → List ℕ
zeros n = replicate n 0

-- The strings as they stand behind the fixed structure: each with its NUL.
abbrev pub packed : StringPack → List ℕ
packed [] = []
packed (s ∷ ss) = (s ++ (0 ∷ [])) ++ packed ss

-- The end of the record: one more NUL behind the strings, and two where there is none.
abbrev pub terminator : StringPack → List ℕ
terminator [] = 0 ∷ 0 ∷ []
terminator (s ∷ ss) = 0 ∷ []

length-append : (xs ys : List ℕ) → length (xs ++ ys) ≡ length xs + length ys
length-append [] ys = omega arith
length-append (x ∷ xs) ys = omega (arith, length-append xs ys)

pub append_assoc : (xs ys zs : List ℕ) → (xs ++ ys) ++ zs ≡ xs ++ (ys ++ zs)
append_assoc [] ys zs = refl
append_assoc (x ∷ xs) ys zs = ap (λ r. x ∷ r) (append_assoc xs ys zs)

pub append_nil : (xs : List ℕ) → xs ++ [] ≡ xs
append_nil [] = refl
append_nil (x ∷ xs) = ap (λ r. x ∷ r) (append_nil xs)

some_cons : ℕ → Option (List ℕ) → Option (List ℕ)
some_cons x o = elim o [ none ↦ none | some rest ↦ some (x ∷ rest) ]

-- A copy over the zeros behind `front` that fits leaves the rest of the zeros.
copy_mem-front :
    (xs : List ℕ) (m : ℕ) → copy_mem (zeros (length xs + m)) 0 xs ≡ some (xs ++ zeros m)
unfolding copy_mem some_cons
copy_mem-front [] m = ap (λ n. some (zeros n)) (omega arith)
copy_mem-front (x ∷ xs) m =
    let size : suc (length xs) + m ≡ suc (length xs + m) = omega arith in
    ap (λ n. copy_mem (zeros n) 0 (x ∷ xs)) size ∙ ap (some_cons x) (copy_mem-front xs m)

copy_mem-behind :
    (front xs : List ℕ) (m : ℕ)
    → copy_mem (front ++ zeros (length xs + m)) (length front) xs ≡ some (front ++ (xs ++ zeros m))
unfolding copy_mem some_cons
copy_mem-behind [] xs m = copy_mem-front xs m
copy_mem-behind (f ∷ front) xs m = ap (some_cons f) (copy_mem-behind front xs m)

-- The strings that follow a copy.
strings_behind : StringPack → ℕ → Option (List ℕ) → Option (List ℕ)
strings_behind ss str o = elim o [ none ↦ none | some buffer ↦ append_strings ss buffer str ]

append_strings-behind :
    (pack : StringPack) (front : List ℕ) (m : ℕ)
    → append_strings pack (front ++ zeros (string_sizes pack + (1 + m))) (length front)
      ≡ some (front ++ (packed pack ++ (0 ∷ zeros m)))
unfolding append_strings string_sizes strings_behind
append_strings-behind [] front m =
    ap (λ n. copy_mem (front ++ zeros n) (length front) (0 ∷ [])) (omega (arith))
    ∙ copy_mem-behind front (0 ∷ []) m
append_strings-behind (s ∷ ss) front m =
    let item = s ++ (0 ∷ []) in
    let rest = string_sizes ss + (1 + m) in
    let str = length front + (length s + 1) in
    let item_length = length-append s (0 ∷ []) in
    let size : (length s + 1) + string_sizes ss + (1 + m) ≡ length item + rest =
      omega (arith, item_length) in
    let next : str ≡ length (front ++ item) =
      omega (arith, item_length, length-append front item) in
    ap (λ n. strings_behind ss str (copy_mem (front ++ zeros n) (length front) item)) size
    ∙ ap (strings_behind ss str) (copy_mem-behind front item rest)
    ∙ ap (λ b. append_strings ss b str) (sym (append_assoc front item (zeros rest)))
    ∙ ap (append_strings ss ((front ++ item) ++ zeros rest)) next
    ∙ append_strings-behind ss (front ++ item) m
    ∙ ap some (
        append_assoc front item _
        ∙ ap (λ r. front ++ r) (sym (append_assoc item (packed ss) (0 ∷ zeros m))))

-- The zeros that the pool has behind the last NUL.
abbrev spare : StringPack → ℕ
spare [] = 1
spare (s ∷ ss) = 0

record_size-lem :
    (t : Template) (pack : StringPack)
    → record_size t (some pack) ≡ length (template_bytes t) + (string_sizes pack + (1 + spare pack))
unfolding record_size string_sizes
record_size-lem t [] = omega arith
record_size-lem t (s ∷ ss) = omega arith

spare-terminator : (pack : StringPack) → 0 ∷ zeros (spare pack) ≡ terminator pack
spare-terminator [] = refl
spare-terminator (s ∷ ss) = refl

-- The strings that follow the structure's copy.
then_strings : Template → StringPack → Option (List ℕ) → Option (List ℕ)
then_strings t pack o = elim o [
  | none ↦ none
  | some buffer ↦ append_strings pack buffer (template_length t)
]

-- The record of a template and strings is built without a write past the pool, fills the pool, and
-- is the structure, each string with its NUL, and one more NUL, or two where there is no string.
pub build_record_lem :
    (t : Template) (pack : StringPack)
    → build_record t (some pack) ≡ some (template_bytes t ++ (packed pack ++ terminator pack))
unfolding build_record then_strings
build_record_lem t pack =
    let fixed = template_bytes t in
    let rest = string_sizes pack + (1 + spare pack) in
    let fixed_length : template_length t ≡ length fixed = omega arith in
    ap (λ n. then_strings t pack (copy_mem (zeros n) 0 fixed)) (record_size-lem t pack)
    ∙ ap (then_strings t pack) (copy_mem-front fixed rest)
    ∙ ap (append_strings pack (fixed ++ zeros rest)) fixed_length
    ∙ append_strings-behind pack fixed (spare pack)
    ∙ ap (λ r. some (fixed ++ (packed pack ++ r))) (spare-terminator pack)
