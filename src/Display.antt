-- ===== src/Display.antt =====
-- Texts that utils/utils.ts makes for the user and reads again: the lines of a long cell of a table,
-- and the names of target types, verbs and roles.
pub mod Lines
pub mod Names
mod Tests
use zli.Prelude.{
  ℕ, zero, suc, ◌+◌, ◌-◌, String, string_key, ◌==◌, Option, none, some, List, [], ◌∷◌, ◌++◌, length,
  take, drop, ltb, find, if◌then◌else◌,
}

abbrev pub newline : ℕ
newline = 10

abbrev pub line_before : List ℕ → Option (List ℕ) → Option (List ℕ)
line_before line none = none
line_before line (some rest) = some (line ++ newline ∷ rest)

-- The loop of `getReadableMultiLineString` from the index of the variable `currentValueIndex` on,
-- with the line after it, in at most as many rounds as the first argument says. Texts are lists of
-- code units.
unfoldable pub lines_from : ℕ → ℕ → List ℕ → (index remaining : ℕ) → Option (List ℕ)
lines_from zero width value index remaining =
    if ltb width remaining then none else some (take width (drop index value))
lines_from (suc rounds) width value index remaining =
    let rest = lines_from rounds width value (index + width) (remaining - width) in
    if ltb width remaining
    then line_before (take width (drop index value)) rest
    else some (take width (drop index value))

-- `getReadableMultiLineString`, with a round for each code unit. Below a width of 2 the number
-- `realColumnWidth` is negative and the loop never ends. At 2 it never ends on a text of one code unit
-- or more, and this runs out of rounds.
unfoldable pub get_readable_multi_line_string : List ℕ → ℕ → Option (List ℕ)
get_readable_multi_line_string value column_width =
    if ltb column_width 2
    then none
    else lines_from (length value) (column_width - 2) value 0 (length value)

pub data DisplayedType : Type 0 where
  bzero ssm_target dynamic_access_config cluster kubernetes linux windows web db : DisplayedType

unfoldable pub target_type_display : DisplayedType → String
target_type_display bzero = "Bzero"
target_type_display ssm_target = "SSM"
target_type_display dynamic_access_config = "Dynamic"
target_type_display cluster = "Kubernetes"
target_type_display kubernetes = "Kubernetes"
target_type_display linux = "Linux"
target_type_display windows = "Windows"
target_type_display web = "Web"
target_type_display db = "Db"

pub data DisplayedVerb : Type 0 where
  shell file_transfer tunnel rdp sql_server : DisplayedVerb

unfoldable pub verb_type_display : DisplayedVerb → String
verb_type_display shell = "Shell"
verb_type_display file_transfer = "FileTransfer"
verb_type_display tunnel = "Tunnel"
verb_type_display rdp = "RDP"
verb_type_display sql_server = "SQLServer"

pub data SubjectRole : Type 0 where
  admin user : SubjectRole

unfoldable pub subject_role_display : SubjectRole → String
subject_role_display admin = "admin"
subject_role_display user = "user"

-- `switch (text.toLowerCase())` with the cases `display(value).toLowerCase()`, in order. A missing or
-- empty text is `undefined`.
module _ (to_lower_case : String → String) where
  abbrev pub switch_on : {A : Type 0} → (A → String) → List A → String → Option A
  switch_on display cases text =
      if text == ""
      then none
      else find (λ value. to_lower_case (display value) == to_lower_case text) cases

  abbrev pub parsed : {A : Type 0} → (A → String) → List A → Option String → Option A
  parsed display cases none = none
  parsed display cases (some text) = switch_on display cases text

  unfoldable pub parse_target_type : Option String → Option DisplayedType
  parse_target_type text =
      parsed target_type_display
        (ssm_target ∷ dynamic_access_config ∷ kubernetes ∷ linux ∷ windows ∷ db ∷ web ∷ []) text

  unfoldable pub parse_verb_type : Option String → Option DisplayedVerb
  parse_verb_type text =
      parsed verb_type_display (shell ∷ file_transfer ∷ tunnel ∷ rdp ∷ sql_server ∷ []) text

  unfoldable pub parse_subject_role : Option String → Option SubjectRole
  parse_subject_role text = parsed subject_role_display (admin ∷ user ∷ []) text
