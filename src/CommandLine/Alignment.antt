-- ===== src/CommandLine/Alignment.antt =====
-- The columns of the help (src/command_line_interface.cpp).
use opera.Prelude.{
  ℕ, ◌+◌, ◌-◌, ◌≤◌, ◌≡◌, refl, ap, List, [], ◌∷◌, ◌++◌, arith, if◌then◌else◌, ltb, length,
  replicate, length-append, length-replicate, drop,
}
use opera.Prelude.Texts.{Text, bytes}
use opera.CommandLine.Parsers.{
  ArgumentParser, help, scheduler, theme, verbosity, short_id, long_id, has_short_id,
  requires_value,
}
use opera.CommandLine.Help.{
  instructions, help_description_header_size, help_description, max_chars, help_lines, print_help,
}

-- Each text is one that ends with a parser's instructions from the column on.
abbrev pub Aligned : ℕ → List ArgumentParser → List Text → Type 0
Aligned column [] lines = lines ≡ []
Aligned column (p ∷ ps) [] = ⊥
Aligned column (p ∷ ps) (line ∷ lines) =
    ((before : Text) × (line ≡ before ++ instructions p) × (length before ≡ column))
    × Aligned column ps lines

append_assoc : (xs ys zs : Text) → (xs ++ ys) ++ zs ≡ xs ++ (ys ++ zs)
append_assoc [] ys zs = refl
append_assoc (x ∷ xs) ys zs = ap (◌∷◌ x) (append_assoc xs ys zs)

-- A header, then spaces up to the column.
description-parts :
    (p : ArgumentParser) (n : ℕ)
    → (header : Text) × (help_description p n ≡ header ++ (replicate n b' ' ++ instructions p))
      × (length header ≡ help_description_header_size p)
unfolding help_description help_description_header_size has_short_id short_id long_id requires_value
description-parts help n = (bytes "[-h | --help]", refl, refl)
description-parts scheduler n = (bytes "[-s | --scheduler] <value>", refl, refl)
description-parts theme n = (bytes "[-t | --theme] <value>", refl, refl)
description-parts verbosity n = (bytes "[-v | --verbosity] <value>", refl, refl)

-- The maximum is no less than any of the sizes, nor than where it starts.
Bounded : ℕ → List ArgumentParser → Type 0
Bounded max [] = Unit
Bounded max (p ∷ ps) = (help_description_header_size p ≤ max) × Bounded max ps

max_chars-ge : (ps : List ArgumentParser) (m : ℕ) → m ≤ max_chars ps m
unfolding max_chars
max_chars-ge [] m = omega arith
max_chars-ge (p ∷ ps) m =
    ground (arith, max_chars-ge ps (help_description_header_size p), max_chars-ge ps m)

max_chars-Bounded : (ps : List ArgumentParser) (m : ℕ) → Bounded (max_chars ps m) ps
unfolding max_chars Bounded
max_chars-Bounded [] m = tt
max_chars-Bounded (p ∷ ps) m = (
  ground (arith, max_chars-ge ps (help_description_header_size p), max_chars-ge ps m),
  max_chars-Bounded ps
      (if ltb m (help_description_header_size p) then help_description_header_size p else m),
)

-- The indentation joined to the header.
split :
    (p : ArgumentParser) (spaces header : Text) {t : Text}
    → t ≡ header ++ (spaces ++ instructions p)
    → bytes "    " ++ t ≡ (bytes "    " ++ (header ++ spaces)) ++ instructions p
split p spaces header e = rw (
  e,
  append_assoc (bytes "    ") (header ++ spaces) (instructions p),
  append_assoc header spaces (instructions p),
)

help_lines-Aligned :
    (ps : List ArgumentParser) (max : ℕ) → Bounded max ps → Aligned (8 + max) ps (help_lines ps max)
unfolding help_lines Bounded
help_lines-Aligned [] max h = refl
help_lines-Aligned (p ∷ ps) max h =
    let n : ℕ = 4 + max - help_description_header_size p in
    let (header, e, size) = description-parts p n in
    (
      (
        bytes "    " ++ (header ++ replicate n b' '),
        split p (replicate n b' ') header e,
        omega (
          arith,
          length-append header (replicate n b' '),
          length-replicate {A = ℕ} n b' ',
          size,
          h.0,
        ),
      ),
      help_lines-Aligned ps max h.1,
    )

-- In the help on any parsers the instructions of all of them begin in one column, eight characters
-- past the longest header, below a first line that names none of them.
pub print_help-Aligned :
    (ps : List ArgumentParser) → Aligned (8 + max_chars ps 0) ps (drop 1 (print_help ps))
unfolding print_help
print_help-Aligned ps = help_lines-Aligned ps (max_chars ps 0) (max_chars-Bounded ps 0)
