-- ===== src/Connect/Patterns.antt =====
-- The two regular expressions of `parseTargetString` and `isGuid`. A text is the list of its code units.
use zli.Prelude.{
  ℕ, zero, suc, nat_key, ◌==◌, leb, Bool, true, false, ◌&&◌, ◌||◌, Option, none, some, List, [],
  ◌∷◌, if◌then◌else◌,
}

abbrev pub Text : Type 0
Text = List ℕ

abbrev between : ℕ → ℕ → ℕ → Bool
between low high c = leb low c && leb c high

-- `[0-9A-Fa-f]`
unfoldable pub is_hex : ℕ → Bool
is_hex c = between 48 57 c || (between 65 70 c || between 97 102 c)

-- `[a-zA-Z0-9_.-]`
unfoldable pub is_name_unit : ℕ → Bool
is_name_unit c =
    between 97 122 c || (between 65 90 c || (between 48 57 c || (c == 95 || (c == 46 || c == 45))))

-- `[0-9A-Fa-f]{n}` at the start of a text: what follows it.
unfoldable pub hex_units : ℕ → Text → Option Text
hex_units zero s = some s
hex_units (suc n) [] = none
hex_units (suc n) (c ∷ s) = let rest = hex_units n s in if is_hex c then rest else none

-- `[-]` and then `n` hexadecimal digits
unfoldable pub dash_hex_units : ℕ → Option Text → Option Text
dash_hex_units n none = none
dash_hex_units n (some []) = none
dash_hex_units n (some (c ∷ s)) = if c == 45 then hex_units n s else none

-- The GUID pattern at the start of a text: what follows it.
unfoldable pub guid_prefix : Text → Option Text
guid_prefix s =
    dash_hex_units 12 (dash_hex_units 4 (dash_hex_units 4 (dash_hex_units 4 (hex_units 8 s))))

-- `$`
abbrev pub at_end : Option Text → Bool
at_end (some []) = true
at_end _ = false

-- `(:{1}|$)`
abbrev pub at_separator : Option Text → Bool
at_separator none = false
at_separator (some []) = true
at_separator (some (c ∷ s)) = c == 58

unfoldable pub is_guid : Text → Bool
is_guid s = at_end (guid_prefix s)

-- `[a-zA-Z0-9_.-]{1,255}(:{1}|$)` once `n` more units are allowed. A separator is no unit of a
-- name, so the longest run is the only one that a separator can follow.
unfoldable pub name_then_separator : ℕ → Text → Bool
name_then_separator n [] = true
name_then_separator zero (c ∷ s) = c == 58
name_then_separator (suc n) (c ∷ s) =
    let rest = name_then_separator n s in if is_name_unit c then rest else c == 58

abbrev pub name_alternative : Text → Bool
name_alternative [] = false
name_alternative (c ∷ s) = is_name_unit c && name_then_separator 254 s

-- `targetNamePattern.test(s)`
unfoldable pub matches_target_name : Text → Bool
matches_target_name s = at_separator (guid_prefix s) || name_alternative s
