-- ===== src/Display/Tests.antt =====
-- Small inputs for the texts that are shown.
use zli.Prelude.{ℕ, some, List, [], ◌∷◌, arith, ◌≡◌, refl}
use zli.Prelude.{String, string_key, ◌==◌, if◌then◌else◌}
use zli.Display.{newline, lines_from, get_readable_multi_line_string}
use zli.Display.Lines.{IsBrokenUp, get_readable_multi_line_string_lem}
use zli.Display.Names.{Lowers}

abbrev long_cell : List ℕ
long_cell = 97 ∷ 98 ∷ 99 ∷ 100 ∷ 101 ∷ []

long_cell_broken :
    get_readable_multi_line_string long_cell 4
    ≡ some (97 ∷ 98 ∷ newline ∷ 99 ∷ 100 ∷ newline ∷ 101 ∷ [])
unfolding get_readable_multi_line_string lines_from
long_cell_broken = refl

get_readable_multi_line_string_example :
    IsBrokenUp 2 long_cell (get_readable_multi_line_string long_cell 4)
get_readable_multi_line_string_example =
    get_readable_multi_line_string_lem long_cell 4 (omega arith)

abbrev lowered_text : String → String
lowered_text text =
    if text == "Bzero"
    then "bzero"
    else if text == "SSM"
    then "ssm"
    else if text == "sSm"
    then "ssm"
    else if text == "Dynamic"
    then "dynamic"
    else if text == "Kubernetes"
    then "kubernetes"
    else if text == "Linux"
    then "linux"
    else if text == "Windows"
    then "windows"
    else if text == "Web"
    then "web"
    else if text == "Db"
    then "db"
    else text

lowered_text-Lowers : Lowers lowered_text
lowered_text-Lowers = record {
  of_empty = refl;
  of_bzero = refl;
  of_ssm = refl;
  of_dynamic = refl;
  of_kubernetes = refl;
  of_linux = refl;
  of_windows = refl;
  of_web = refl;
  of_db = refl;
}
