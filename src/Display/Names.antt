-- ===== src/Display/Names.antt =====
-- Reading the displayed name of a target type again.
use zli.Prelude.{
  String, string_key, ◌==◌, false, Option, none, some, ◌≡◌, ◌∙◌, refl, sym, Bool-cases, inl, inr,
  ap, [], ◌∷◌, find,
}
use zli.Dict.Laws.{==-to-≡}
use zli.Display.{
  DisplayedType, bzero, ssm_target, dynamic_access_config, cluster, kubernetes, linux, windows, web,
  db, target_type_display, parse_target_type,
}

-- What `toLowerCase` gives on the displayed names, and on the empty text.
pub record Lowers (to_lower_case : String → String) : Type 0 where
  pub of_empty : to_lower_case "" ≡ ""
  pub of_bzero : to_lower_case "Bzero" ≡ "bzero"
  pub of_ssm : to_lower_case "SSM" ≡ "ssm"
  pub of_dynamic : to_lower_case "Dynamic" ≡ "dynamic"
  pub of_kubernetes : to_lower_case "Kubernetes" ≡ "kubernetes"
  pub of_linux : to_lower_case "Linux" ≡ "linux"
  pub of_windows : to_lower_case "Windows" ≡ "windows"
  pub of_web : to_lower_case "Web" ≡ "web"
  pub of_db : to_lower_case "Db" ≡ "db"

-- The type that a displayed name is read as.
abbrev pub read_as : DisplayedType → Option DisplayedType
read_as bzero = none
read_as ssm_target = some ssm_target
read_as dynamic_access_config = some dynamic_access_config
read_as cluster = some kubernetes
read_as kubernetes = some kubernetes
read_as linux = some linux
read_as windows = some windows
read_as web = some web
read_as db = some db

abbrev lowered_name : DisplayedType → String
lowered_name bzero = "bzero"
lowered_name ssm_target = "ssm"
lowered_name dynamic_access_config = "dynamic"
lowered_name cluster = "kubernetes"
lowered_name kubernetes = "kubernetes"
lowered_name linux = "linux"
lowered_name windows = "windows"
lowered_name web = "web"
lowered_name db = "db"

abbrev looked_up : String → Option DisplayedType
looked_up lowered =
    find (λ type. lowered_name type == lowered)
      (ssm_target ∷ dynamic_access_config ∷ kubernetes ∷ linux ∷ windows ∷ db ∷ web ∷ [])

module _ (to_lower_case : String → String) (lowers : Lowers to_lower_case) where
  lowered_of : (type : DisplayedType) → to_lower_case (target_type_display type) ≡ lowered_name type
  unfolding target_type_display
  lowered_of bzero = lowers.of_bzero
  lowered_of ssm_target = lowers.of_ssm
  lowered_of dynamic_access_config = lowers.of_dynamic
  lowered_of cluster = lowers.of_kubernetes
  lowered_of kubernetes = lowers.of_kubernetes
  lowered_of linux = lowers.of_linux
  lowered_of windows = lowers.of_windows
  lowered_of web = lowers.of_web
  lowered_of db = lowers.of_db

  not_empty :
      (text lowered : String)
      → to_lower_case text ≡ lowered
      → (lowered == "") ≡ false
      → (text == "") ≡ false
  not_empty text lowered e h = elim (Bool-cases (text == "")) [
    | inl f ↦
        let g : lowered ≡ "" = sym e ∙ ap to_lower_case (==-to-≡ f) ∙ lowers.of_empty in
        f ∙ sym (ap (λ l. l == "") g) ∙ h
    | inr f ↦ f
  ]

  parse_lowered :
      (text lowered : String)
      → to_lower_case text ≡ lowered
      → (lowered == "") ≡ false
      → parse_target_type to_lower_case (some text) ≡ looked_up lowered
  unfolding parse_target_type
  parse_lowered text lowered e h =
      rw
        (
          not_empty text lowered e h,
          e,
          lowered_of ssm_target,
          lowered_of dynamic_access_config,
          lowered_of kubernetes,
          lowered_of linux,
          lowered_of windows,
          lowered_of db,
          lowered_of web,
        )
        refl

  -- A text that differs at most in case from the displayed name of a target type is read as that
  -- type again, but for two: a cluster is read as kubernetes, and Bzero is not read at all.
  parse_target_type-target_type_display :
      (type : DisplayedType) (text : String)
      → to_lower_case text ≡ to_lower_case (target_type_display type)
      → parse_target_type to_lower_case (some text) ≡ read_as type
  parse_target_type-target_type_display bzero text e =
      parse_lowered text "bzero" (e ∙ lowered_of bzero) refl
  parse_target_type-target_type_display ssm_target text e =
      parse_lowered text "ssm" (e ∙ lowered_of ssm_target) refl
  parse_target_type-target_type_display dynamic_access_config text e =
      parse_lowered text "dynamic" (e ∙ lowered_of dynamic_access_config) refl
  parse_target_type-target_type_display cluster text e =
      parse_lowered text "kubernetes" (e ∙ lowered_of cluster) refl
  parse_target_type-target_type_display kubernetes text e =
      parse_lowered text "kubernetes" (e ∙ lowered_of kubernetes) refl
  parse_target_type-target_type_display linux text e =
      parse_lowered text "linux" (e ∙ lowered_of linux) refl
  parse_target_type-target_type_display windows text e =
      parse_lowered text "windows" (e ∙ lowered_of windows) refl
  parse_target_type-target_type_display web text e =
      parse_lowered text "web" (e ∙ lowered_of web) refl
  parse_target_type-target_type_display db text e = parse_lowered text "db" (e ∙ lowered_of db) refl
