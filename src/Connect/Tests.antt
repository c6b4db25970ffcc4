-- ===== src/Connect/Tests.antt =====
-- Target strings and exit codes as a user meets them.
use zli.Prelude.{string_key, nat_key, some, [], ◌∷◌, ◌≡◌, refl, arith}
use zli.Connect.Patterns.{Text, is_name_unit}
use zli.Connect.TargetString.{parse_target_string}
use zli.Connect.RoundTrip.{taken_apart, parse_target_string_of_parts}

-- a@b
abbrev service_account : Text
service_account = 97 ∷ 64 ∷ 98 ∷ []

-- gcp
abbrev gcp : Text
gcp = 103 ∷ 99 ∷ 112 ∷ []

-- The string `a@b@gcp.gcp`.
parse_target_string_of_parts_example :
    parse_target_string (97 ∷ 64 ∷ 98 ∷ 64 ∷ 103 ∷ 99 ∷ 112 ∷ 46 ∷ 103 ∷ 99 ∷ 112 ∷ [])
    ≡ some (taken_apart (some service_account) gcp (some gcp))
unfolding is_name_unit
parse_target_string_of_parts_example =
    parse_target_string_of_parts (some service_account) gcp (some gcp)
      (refl, refl, refl, omega arith)
