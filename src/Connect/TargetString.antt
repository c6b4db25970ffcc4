-- ===== src/Connect/TargetString.antt =====
-- `parseTargetString` of utils/utils.ts.
use zli.Prelude.{
  ℕ, nat_key, ◌==◌, Bool, true, false, not, Option, none, some, [], ◌∷◌, if◌then◌else◌,
}
use zli.Connect.Patterns.{Text, is_guid, matches_target_name}

-- The field `type` stays undefined.
pub record ParsedTargetString : Type 0 where
  pub user : Option Text
  pub id : Option Text
  pub name : Option Text
  pub env_id : Option Text
  pub env_name : Option Text

-- The slices before and after the first `separator` of a text: `indexOf` and `slice`.
unfoldable pub split_first : ℕ → Text → Option (Text × Text)
split_first separator [] = none
split_first separator (c ∷ s) =
    let rest = split_first separator s in
    if c == separator
    then some ([], s)
    else (elim rest [ none ↦ none | some (before, after) ↦ some (c ∷ before, after) ])

-- The slices before and after the last one: `lastIndexOf` and `slice`.
unfoldable pub split_last : ℕ → Text → Option (Text × Text)
split_last separator [] = none
split_last separator (c ∷ s) = elim (split_last separator s) [
  | some (before, after) ↦ some (c ∷ before, after)
  | none ↦ if c == separator then some ([], s) else none
]

abbrev pub user_part : Option (Text × Text) → Option Text
user_part none = none
user_part (some (before, after)) = some before

abbrev pub target_part : Text → Option (Text × Text) → Text
target_part s none = s
target_part s (some (before, after)) = after

abbrev pub first_part : Text → Option (Text × Text) → Text
first_part s none = s
first_part s (some (before, after)) = before

-- `environmentIdOrName`, the empty text if there is no period
abbrev pub second_part : Option (Text × Text) → Text
second_part none = []
second_part (some (before, after)) = after

abbrev pub if_some : Bool → Text → Option Text
if_some true s = some s
if_some false s = none

abbrev pub is_nonempty : Text → Bool
is_nonempty [] = false
is_nonempty (c ∷ s) = true

unfoldable pub parse_parts : Option Text → Text → Text → ParsedTargetString
parse_parts user target environment = record {
  user = user;
  id = if_some (is_guid target) target;
  name = if_some (not (is_guid target)) target;
  env_id = if_some (is_guid environment) environment;
  env_name = if is_guid environment then none else if_some (is_nonempty environment) environment;
}

-- 64 is `@` and 46 the period.
unfoldable pub parse_target : Option Text → Text → Option ParsedTargetString
parse_target user s =
    if not (matches_target_name s)
    then none
    else some (parse_parts user (first_part s (split_first 46 s)) (second_part (split_first 46 s)))

unfoldable pub parse_target_string : Text → Option ParsedTargetString
parse_target_string s = parse_target (user_part (split_last 64 s)) (target_part s (split_last 64 s))
