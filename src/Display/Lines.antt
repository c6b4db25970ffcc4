-- ===== src/Display/Lines.antt =====
-- The lines of a text that is broken up.
use zli.Prelude.{
  false, ℕ, zero, suc, ◌+◌, ◌-◌, ◌≤◌, ◌<◌, Option, some, List, [], ◌∷◌, ◌++◌, length, take, drop,
  ltb, All, ◌≡◌, ◌∙◌, refl, ap, arith, Bool-cases, inl, inr, length-take, length-drop, append-nil,
}
use zli.Shell.Chunks.{flatten, take-drop-append}
use zli.Display.{newline, lines_from, get_readable_multi_line_string}

-- Lines with a newline between two of them.
abbrev pub with_newlines : List ℕ → List (List ℕ) → List ℕ
with_newlines line [] = line
with_newlines line (next ∷ lines) = line ++ newline ∷ with_newlines next lines

-- A text is given line by line: the lines are those of the value, in order and without loss, none
-- longer than the width.
abbrev pub IsBrokenUp : ℕ → List ℕ → Option (List ℕ) → Type 0
IsBrokenUp width value result =
    (line : List ℕ) × (lines : List (List ℕ)) × (result ≡ some (with_newlines line lines))
    × (flatten (line ∷ lines) ≡ value)
    × All (λ (l : List ℕ). length l ≤ width) (line ∷ lines)

take_all : (n : ℕ) (xs : List ℕ) → length xs ≤ n → take n xs ≡ xs
take_all zero [] h = refl
take_all zero (x ∷ xs) h = ground arith
take_all (suc n) [] h = refl
take_all (suc n) (x ∷ xs) h = ap (λ l. x ∷ l) (take_all n xs (omega arith))

last_line :
    (width index remaining : ℕ) (value : List ℕ)
    → remaining ≡ length value - index
    → remaining ≤ width
    → IsBrokenUp width (drop index value) (some (take width (drop index value)))
last_line width index remaining value e h = (
  take width (drop index value),
  [],
  refl,
  append-nil (take width (drop index value))
      ∙ take_all width (drop index value) (ground (arith, length-drop index value)),
  (ground (arith, length-take width (drop index value)), tt),
)

lines_from-IsBrokenUp :
    (rounds width : ℕ) (value : List ℕ) (index remaining : ℕ)
    → 0 < width
    → remaining ≡ length value - index
    → remaining ≤ rounds + width
    → IsBrokenUp width (drop index value) (lines_from rounds width value index remaining)
unfolding lines_from
lines_from-IsBrokenUp zero width value index remaining p e h =
    elim (Bool-cases (ltb width remaining)) [
      | inl f ↦ absurd (ground arith)
      | inr f ↦ rw f (last_line width index remaining value e (omega arith))
    ]
lines_from-IsBrokenUp (suc rounds) width value index remaining p e h =
    elim (Bool-cases (ltb width remaining)) [
      | inl f ↦
          let (line, lines, g, same, bounded) =
            lines_from-IsBrokenUp rounds width value (index + width) (remaining - width) p
              (omega arith) (omega arith) in
          rw f (
            take width (drop index value),
            line ∷ lines,
            rw g refl,
            ap (λ l. take width (drop index value) ++ l) same ∙ take-drop-append width index value,
            (ground (arith, length-take width (drop index value)), bounded),
          )
      | inr f ↦ rw f (last_line width index remaining value e (ground arith))
    ]

-- For a column wider than 2, the loop ends within a round for each code unit, and what it gives are
-- lines with a newline between two of them. The lines are the value, in order and without loss, and
-- none is longer than the width of the column less 2.
pub get_readable_multi_line_string_lem :
    (value : List ℕ) (column_width : ℕ)
    → 2 < column_width
    → IsBrokenUp (column_width - 2) value (get_readable_multi_line_string value column_width)
unfolding get_readable_multi_line_string
get_readable_multi_line_string_lem value column_width p =
    let f : ltb column_width 2 ≡ false = ground arith in
    rw f (
      lines_from-IsBrokenUp (length value) (column_width - 2) value 0 (length value) (omega arith)
        (omega arith) (omega arith))
