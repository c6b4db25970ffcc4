-- ===== src/Connect/RoundTrip.antt =====
-- Target strings that are put together from their parts are taken apart again.
use zli.Prelude.{
  ℕ, zero, suc, nat_key, ◌==◌, ◌≤◌, Bool, true, false, Option, none, some, [], ◌∷◌, ◌++◌, ◌≡◌, refl,
  arith, length, all, any, ap, ◌∙◌, if◌then◌else◌, Bool-cases, inl, inr,
}
use zli.Connect.Patterns.{
  guid_prefix, dash_hex_units, hex_units, Text, is_guid, is_name_unit, name_then_separator,
  matches_target_name,
}
use zli.Connect.TargetString.{
  split_first, split_last, is_nonempty, parse_parts, parse_target, parse_target_string,
  ParsedTargetString,
}

split_last_unsplit : (s : Text) → all is_name_unit s ≡ true → split_last 64 s ≡ none
unfolding split_last is_name_unit
split_last_unsplit [] h = refl
split_last_unsplit (c ∷ s) h = ground (arith, split_last_unsplit s)

split_last-append :
    (user s : Text) → all is_name_unit s ≡ true → split_last 64 (user ++ 64 ∷ s) ≡ some (user, s)
unfolding split_last
split_last-append [] s h = rw (split_last_unsplit s h) refl
split_last-append (c ∷ user) s h = rw (split_last-append user s h) refl

split_first_unsplit : (s : Text) → any (λ c. c == 46) s ≡ false → split_first 46 s ≡ none
unfolding split_first
split_first_unsplit [] h = refl
split_first_unsplit (c ∷ s) h = ground (arith, split_first_unsplit s)

split_first-append :
    (name env : Text)
    → any (λ c. c == 46) name ≡ false
    → split_first 46 (name ++ 46 ∷ env) ≡ some (name, env)
unfolding split_first
split_first-append [] env h = refl
split_first-append (c ∷ name) env h = ground (arith, split_first-append name env)

all-append :
    (p : ℕ → Bool) (xs ys : Text) → all p xs ≡ true → all p ys ≡ true → all p (xs ++ ys) ≡ true
all-append p [] ys h k = k
all-append p (x ∷ xs) ys h k = ground (arith, all-append p xs ys)

name_then_separator_of_all :
    (n : ℕ) (s : Text) → all is_name_unit s ≡ true → length s ≤ n → name_then_separator n s ≡ true
unfolding name_then_separator
name_then_separator_of_all n [] h k = refl
name_then_separator_of_all zero (c ∷ s) h k = absurd (omega arith)
name_then_separator_of_all (suc n) (c ∷ s) h k = ground (arith, name_then_separator_of_all n s)

matches_of_all :
    (s : Text)
    → all is_name_unit s ≡ true
    → is_nonempty s ≡ true
    → length s ≤ 255
    → matches_target_name s ≡ true
unfolding matches_target_name
matches_of_all [] h e k = absurd (cc)
matches_of_all (c ∷ s) h e k = ground (arith, name_then_separator_of_all 254 s)

-- `name`, or `name.environment`
abbrev pub with_environment : Text → Option Text → Text
with_environment name none = name
with_environment name (some environment) = name ++ 46 ∷ environment

-- `target`, or `user@target`
abbrev pub with_user_name : Option Text → Text → Text
with_user_name none target = target
with_user_name (some user) target = user ++ 64 ∷ target

-- An id and no name, or a name and no id.
abbrev pub id_part : Text → Option Text
id_part s = if is_guid s then some s else none

abbrev pub name_part : Text → Option Text
name_part s = if is_guid s then none else some s

-- The same of an environment; an empty one is none.
abbrev pub env_id_part : Option Text → Option Text
env_id_part none = none
env_id_part (some []) = none
env_id_part (some (c ∷ s)) = id_part (c ∷ s)

abbrev pub env_name_part : Option Text → Option Text
env_name_part none = none
env_name_part (some []) = none
env_name_part (some (c ∷ s)) = name_part (c ∷ s)

abbrev pub taken_apart : Option Text → Text → Option Text → ParsedTargetString
taken_apart user name environment = record {
  user = user;
  id = id_part name;
  name = name_part name;
  env_id = env_id_part environment;
  env_name = env_name_part environment;
}

abbrev environment_or_empty : Option Text → Text
environment_or_empty none = []
environment_or_empty (some environment) = environment

abbrev pub IsTarget : Text → Option Text → Type 0
IsTarget name environment =
    (all is_name_unit (with_environment name environment) ≡ true)
    × (any (λ c. c == 46) name ≡ false)
    × (is_nonempty (with_environment name environment) ≡ true)
    × (length (with_environment name environment) ≤ 255)

parse_target_of_parts :
    (user : Option Text) (name : Text) (environment : Option Text)
    → IsTarget name environment
    → parse_target user (with_environment name environment)
      ≡ some (parse_parts user name (environment_or_empty environment))
unfolding parse_target
parse_target_of_parts user name none (h, k, e, l) =
    rw (matches_of_all name h e l, split_first_unsplit name k) refl
parse_target_of_parts user name (some environment) (h, k, e, l) =
    rw (matches_of_all (name ++ 46 ∷ environment) h e l, split_first-append name environment k) refl

parse_parts_lem :
    (user : Option Text) (name : Text) (environment : Option Text)
    → parse_parts user name (environment_or_empty environment) ≡ taken_apart user name environment
unfolding parse_parts is_guid guid_prefix dash_hex_units hex_units
parse_parts_lem user name none = elim (Bool-cases (is_guid name)) [
  | inl e ↦ rw e refl
  | inr e ↦ rw e refl
]
parse_parts_lem user name (some []) = elim (Bool-cases (is_guid name)) [
  | inl e ↦ rw e refl
  | inr e ↦ rw e refl
]
parse_parts_lem user name (some (c ∷ s)) = elim (Bool-cases (is_guid name)) [
  | inl e ↦ elim (Bool-cases (is_guid (c ∷ s))) [ inl f ↦ rw (e, f) refl | inr f ↦ rw (e, f) refl ]
  | inr e ↦ elim (Bool-cases (is_guid (c ∷ s))) [ inl f ↦ rw (e, f) refl | inr f ↦ rw (e, f) refl ]
]

-- Let the target and the environment together have 1 to 255 units that the pattern allows, and let
-- the target have no period. Then parsing the target string gives back the user, which may have any
-- units and `@` among them, the target, and the environment, each of the last two as an id if it
-- is a GUID and as a name otherwise; an empty environment is given back as none.
pub parse_target_string_of_parts :
    (user : Option Text) (name : Text) (environment : Option Text)
    → IsTarget name environment
    → parse_target_string (with_user_name user (with_environment name environment))
      ≡ some (taken_apart user name environment)
unfolding parse_target_string
parse_target_string_of_parts none name environment h =
    rw (split_last_unsplit (with_environment name environment) h.0) (
      parse_target_of_parts none name environment h
      ∙ ap some (parse_parts_lem none name environment))
parse_target_string_of_parts (some user) name environment h =
    rw (split_last-append user (with_environment name environment) h.0) (
      parse_target_of_parts (some user) name environment h
      ∙ ap some (parse_parts_lem (some user) name environment))
