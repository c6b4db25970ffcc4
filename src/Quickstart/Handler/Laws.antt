-- ===== src/Quickstart/Handler/Laws.antt =====
-- When the handler ends the process with the code 0.
use zli.Dict.Defs.{Dict, keys}
use zli.Effect.{or_else, Failure, pure, emit, rejected}
use zli.Prelude.{filter, map, String, if◌then◌else◌, none, some, refl, inl, inr, some}
use zli.Effect.{resolved}
use zli.Prelude.{String}
use zli.Effect.{Settled, Settled-cases}
use zli.Effect.{emit}
use zli.Prelude.{Bool-cases, All}
use zli.Prelude.{Option}
use zli.Prelude.{nat_key, ◌==◌, Bool, true, false, List, [], ◌∷◌, ◌++◌, ◌≡◌, arith, ◌⊎◌, inl, inr}
use zli.Effect.{Outcome, returned, exited, threw, Run, ◌>>=◌}
use zli.Quickstart.Hosts.{ValidSshHost}
use zli.Quickstart.Keys.{KeyEvent, prompt_convert_hosts}
use zli.Quickstart.Hosts.{parse_ssh_hosts, get_ssh_hosts_with_valid_ssh_keys}
use zli.Quickstart.Keys.Leaving.{LeavesBy, prompt_convert_hosts-LeavesBy}
use zli.Quickstart.Provision.{ProvisionEvent}
use zli.Quickstart.Types.{ValidSshHostAndConfig, RegistrableSshHost, RegisteredSshHost}
use zli.Quickstart.Provision.{
  ProvisionBackend, create_env_for_unique_usernames, create_policy_for_unique_usernames,
}
use zli.Quickstart.Provision.Laws.{
  given, create_env_for_unique_usernames_grouped, create_policy_for_unique_usernames_lem,
}
use zli.Quickstart.Handler.{
  choose_hosts, set_up_environments, confirm_hosts, use_selection, onboard_hosts, read_and_onboard,
  register_hosts, finish_with, quickstart_handler, hosts_named, fulfilled,
}
use zli.Quickstart.Handler.{
  QuickstartEvent, admin_required, provisioned, key_asked, footer_printed, transcript_saved,
  login_started, congratulated, QuickstartSystem, Quickstart, AdminSummary, await, saved,
  exit_and_save_transcript, answered, unless_empty, post_success_login, must_be_user, welcome_back,
  after_login, first_login, existing_file, ssh_config_path, validate_quickstart_args, key_system,
  asking, provisioning,
}

-- An element of the list has the property.
abbrev pub Some : {E : Type 0} → (E → Type 0) → List E → Type 0
Some P [] = ⊥
Some P (e ∷ es) = P e ⊎ Some P es

module _ {E : Type 0} (P : E → Type 0) where
  -- A run that ends the process with the code 0 has an event of the property.
  abbrev pub ZeroNeeds : {A : Type 0} → Run E A → Type 0
  ZeroNeeds (es, returned a) = Unit
  ZeroNeeds (es, threw failure) = Unit
  ZeroNeeds (es, exited code) = ((code == 0) ≡ false) ⊎ Some P es

  Some-append_right : (es fs : List E) → Some P fs → Some P (es ++ fs)
  Some-append_right [] fs h = h
  Some-append_right (e ∷ es) fs h = inr (Some-append_right es fs h)

  ZeroNeeds-append :
      {A : Type 0} (es fs : List E) (r : Outcome A) → ZeroNeeds (fs, r) → ZeroNeeds (es ++ fs, r)
  ZeroNeeds-append es fs (returned a) h = tt
  ZeroNeeds-append es fs (threw failure) h = tt
  ZeroNeeds-append es fs (exited code) (inl n) = inl n
  ZeroNeeds-append es fs (exited code) (inr h) = inr (Some-append_right es fs h)

  ZeroNeeds->>= :
      {A B : Type 0} (m : Run E A) (f : A → Run E B)
      → ZeroNeeds m
      → ((a : A) → ZeroNeeds (f a))
      → ZeroNeeds (m >>= f)
  ZeroNeeds->>= (es, returned a) f h k = ZeroNeeds-append es (f a).0 (f a).1 (k a)
  ZeroNeeds->>= (es, threw failure) f h k = tt
  ZeroNeeds->>= (es, exited code) f h k = h

module _ (s : QuickstartSystem) where
  -- The target that the registration of some host gave.
  abbrev pub IsAdded : RegisteredSshHost → Type 0
  IsAdded target = (host : RegistrableSshHost) × (s.add_host host ≡ resolved target)

  -- The congratulation on one target or more, each of which was added.
  abbrev pub IsCongratulation : QuickstartEvent → Type 0
  IsCongratulation (congratulated (t ∷ targets)) = All IsAdded (t ∷ targets)
  IsCongratulation (congratulated []) = ⊥
  IsCongratulation admin_required = ⊥
  IsCongratulation login_started = ⊥
  IsCongratulation (provisioned e) = ⊥
  IsCongratulation (key_asked e) = ⊥
  IsCongratulation footer_printed = ⊥
  IsCongratulation transcript_saved = ⊥

  abbrev pub IsEarned : {A : Type 0} → Quickstart A → Type 0
  IsEarned m = ZeroNeeds IsCongratulation m

  bind-IsEarned :
      {A B : Type 0} (m : Quickstart A) (f : A → Quickstart B)
      → IsEarned m
      → ((a : A) → IsEarned (f a))
      → IsEarned (m >>= f)
  bind-IsEarned m f h k = ZeroNeeds->>= IsCongratulation m f h k

  provisioning-IsEarned :
      {A : Type 0} (run : Run ProvisionEvent A) (a : A)
      → run.1 ≡ returned a
      → IsEarned (provisioning run)
  provisioning-IsEarned (es, r) a e = rw e tt

  asking-IsEarned : {A : Type 0} (run : Run KeyEvent A) → LeavesBy 1 run.1 → IsEarned (asking run)
  asking-IsEarned (es, returned a) h = tt
  asking-IsEarned (es, threw failure) h = tt
  asking-IsEarned (es, exited code) h = rw h (inl refl)

  await-IsEarned : {A : Type 0} (r : Settled A) → IsEarned (await r)
  await-IsEarned (resolved a) = tt
  await-IsEarned (rejected failure) = tt

  or_else-IsEarned :
      {A : Type 0} (m : Quickstart A) (f : Failure → Quickstart A)
      → IsEarned m
      → ((x : Failure) → IsEarned (f x))
      → IsEarned (or_else m f)
  or_else-IsEarned (es, returned a) f h k = tt
  or_else-IsEarned (es, exited code) f h k = h
  or_else-IsEarned (es, threw x) f h k = ZeroNeeds-append IsCongratulation es (f x).0 (f x).1 (k x)

  saved-IsEarned : (answer : Option Bool) → IsEarned (saved s 1 answer)
  saved-IsEarned none = inl refl
  saved-IsEarned (some true) = inl refl
  saved-IsEarned (some false) = inl refl

  failure-IsEarned : IsEarned (exit_and_save_transcript s 1)
  unfolding exit_and_save_transcript
  failure-IsEarned = saved-IsEarned s.save_transcript

  answered-IsEarned :
      {A : Type 0} (nothing : A) (answer : Option A) → IsEarned (answered s nothing answer)
  answered-IsEarned nothing none =
      bind-IsEarned (exit_and_save_transcript s 1) (λ u. pure nothing) failure-IsEarned (λ u. tt)
  answered-IsEarned nothing (some a) = tt

  unless_empty-IsEarned : {A : Type 0} (list : List A) → IsEarned (unless_empty s list)
  unless_empty-IsEarned [] = failure-IsEarned
  unless_empty-IsEarned (a ∷ rest) = tt

  post_success_login-IsEarned : (user : AdminSummary) → IsEarned (post_success_login user)
  unfolding post_success_login
  post_success_login-IsEarned user = elim (Bool-cases user.is_admin) [
    | inl e ↦ rw e tt
    | inr e ↦ rw e (inl refl)
  ]

  user_checked-IsEarned :
      (user : Settled AdminSummary) → IsEarned (await user >>= post_success_login)
  user_checked-IsEarned user =
      bind-IsEarned (await user) post_success_login (await-IsEarned user)
        post_success_login-IsEarned

  must_be_user-IsEarned : (is_user : Bool) → IsEarned (must_be_user s is_user)
  must_be_user-IsEarned true = tt
  must_be_user-IsEarned false = tt

  welcome_back-IsEarned : IsEarned (welcome_back s)
  unfolding welcome_back
  welcome_back-IsEarned =
      bind-IsEarned (await s.token_set)
        (λ u. must_be_user s s.is_user >>= (λ v. await s.user_summary >>= post_success_login))
        (await-IsEarned s.token_set)
        (λ u.
          bind-IsEarned (must_be_user s s.is_user)
            (λ v. await s.user_summary >>= post_success_login) (must_be_user-IsEarned s.is_user)
            (λ v. user_checked-IsEarned s.user_summary))

  after_login-IsEarned : (result : Bool) → IsEarned (after_login s result)
  after_login-IsEarned false = inl refl
  after_login-IsEarned true =
      bind-IsEarned (must_be_user s s.is_user_after_login)
        (λ v. await s.user_after_login >>= post_success_login)
        (must_be_user-IsEarned s.is_user_after_login)
        (λ v. user_checked-IsEarned s.user_after_login)

  first_login-IsEarned : IsEarned (first_login s)
  unfolding first_login
  first_login-IsEarned =
      bind-IsEarned (emit login_started) (λ u. await s.login_user >>= after_login s) tt
        (λ u.
          bind-IsEarned (await s.login_user) (after_login s) (await-IsEarned s.login_user)
            after_login-IsEarned)

  existing_file-IsEarned : (path : String) → IsEarned (existing_file s.exists path)
  existing_file-IsEarned path = elim (Bool-cases (s.exists path)) [
    | inl e ↦ rw e tt
    | inr e ↦ rw e tt
  ]

  ssh_config_path-IsEarned : (path : Option String) → IsEarned (ssh_config_path s path)
  ssh_config_path-IsEarned none = existing_file-IsEarned s.default_ssh_config_file
  ssh_config_path-IsEarned (some path) = existing_file-IsEarned path

  validate_quickstart_args-IsEarned : IsEarned (validate_quickstart_args s)
  unfolding validate_quickstart_args
  validate_quickstart_args-IsEarned = elim (Bool-cases s.is_windows) [
    | inl e ↦ rw e tt
    | inr e ↦ rw e (ssh_config_path-IsEarned s.ssh_config_file)
  ]

  failure_code : (answer : Option Bool) → (saved s 1 answer).1 ≡ exited 1
  failure_code none = refl
  failure_code (some true) = refl
  failure_code (some false) = refl

  keys-IsEarned :
      (hosts : List ValidSshHost) → IsEarned (asking (prompt_convert_hosts (key_system s) hosts))
  unfolding exit_and_save_transcript
  keys-IsEarned hosts =
      asking-IsEarned (prompt_convert_hosts (key_system s) hosts)
        (prompt_convert_hosts-LeavesBy (key_system s) 1 (failure_code s.save_transcript) hosts)

module _ (to_lower_case join_home : String → String) (b : ProvisionBackend)
    (s : QuickstartSystem) where
  not_ready-IsEarned :
      (is_ready : Bool) → IsEarned s (if is_ready then pure tt else exit_and_save_transcript s 1)
  not_ready-IsEarned true = tt
  not_ready-IsEarned false = failure-IsEarned s

  set_up_environments-IsEarned :
      (configs : List ValidSshHostAndConfig) (is_ready : Bool)
      → IsEarned s (set_up_environments to_lower_case join_home b s configs is_ready)
  unfolding set_up_environments
  set_up_environments-IsEarned configs is_ready =
      let run = create_env_for_unique_usernames to_lower_case b configs in
      let (e, hosts, events) = create_env_for_unique_usernames_grouped to_lower_case b "" configs in
      bind-IsEarned s (if is_ready then pure tt else exit_and_save_transcript s 1)
        (λ u. provisioning run >>= (λ hs. unless_empty s hs >>= (λ v. pure hs)))
        (not_ready-IsEarned is_ready)
        (λ u.
          bind-IsEarned s (provisioning run) (λ hs. unless_empty s hs >>= (λ v. pure hs))
            (provisioning-IsEarned s run (given run) e)
            (λ hs.
              bind-IsEarned s (unless_empty s hs) (λ v. pure hs) (unless_empty-IsEarned s hs)
                (λ v. tt)))

  confirm_hosts-IsEarned :
      (configs : List ValidSshHostAndConfig)
      → IsEarned s (confirm_hosts to_lower_case join_home b s configs)
  unfolding confirm_hosts
  confirm_hosts-IsEarned configs =
      let set_up = set_up_environments to_lower_case join_home b s configs in
      bind-IsEarned s (unless_empty s configs) (λ u. answered s false s.ready >>= set_up)
        (unless_empty-IsEarned s configs)
        (λ u.
          bind-IsEarned s (answered s false s.ready) set_up (answered-IsEarned s false s.ready)
            (set_up_environments-IsEarned configs))

  use_selection-IsEarned :
      (hosts : Dict String ValidSshHost) (selects : String → Bool)
      → IsEarned s (use_selection to_lower_case join_home b s hosts selects)
  unfolding use_selection
  use_selection-IsEarned hosts selects =
      let names = filter selects (keys hosts) in
      let asked = asking (prompt_convert_hosts (key_system s) (hosts_named names hosts)) in
      let confirm = confirm_hosts to_lower_case join_home b s in
      bind-IsEarned s (unless_empty s names) (λ u. asked >>= confirm)
        (unless_empty-IsEarned s names)
        (λ u.
          bind-IsEarned s asked confirm (keys-IsEarned s (hosts_named names hosts))
            confirm_hosts-IsEarned)

  choose_hosts-IsEarned :
      (hosts : Dict String ValidSshHost)
      → IsEarned s (choose_hosts to_lower_case join_home b s hosts)
  unfolding choose_hosts
  choose_hosts-IsEarned hosts =
      let answer = answered s (λ name. false) (s.select_hosts (keys hosts)) in
      let select = use_selection to_lower_case join_home b s hosts in
      bind-IsEarned s (unless_empty s hosts) (λ u. answer >>= select)
        (unless_empty-IsEarned s hosts)
        (λ u.
          bind-IsEarned s answer select
            (answered-IsEarned s (λ name. false) (s.select_hosts (keys hosts)))
            (use_selection-IsEarned hosts))

  saved_after :
      (t : RegisteredSshHost) (targets : List RegisteredSshHost) (answer : Option Bool)
      → All (IsAdded s) (t ∷ targets)
      → IsEarned s (emit (congratulated (t ∷ targets)) >>= (λ u. saved s 0 answer))
  saved_after t targets none h = inr (inl h)
  saved_after t targets (some true) h = inr (inl h)
  saved_after t targets (some false) h = inr (inl h)

  finish_with-IsEarned :
      (targets : List RegisteredSshHost)
      → All (IsAdded s) targets
      → IsEarned s (finish_with to_lower_case join_home b s targets)
  unfolding finish_with exit_and_save_transcript
  finish_with-IsEarned [] h = rw (failure_code s s.save_transcript) (inl refl)
  finish_with-IsEarned (t ∷ targets) h =
      let run = create_policy_for_unique_usernames to_lower_case b (t ∷ targets) in
      let (e, connectable, events) =
        create_policy_for_unique_usernames_lem to_lower_case b "" (t ∷ targets) in
      bind-IsEarned s (provisioning run)
        (λ connectable. emit (congratulated (t ∷ targets)) >>= (λ u. saved s 0 s.save_transcript))
        (provisioning-IsEarned s run (given run) e)
        (λ hs. saved_after t targets s.save_transcript h)

  fulfilled-IsAdded :
      (hosts : List RegistrableSshHost) → All (IsAdded s) (fulfilled (map s.add_host hosts))
  unfolding fulfilled
  fulfilled-IsAdded [] = tt
  fulfilled-IsAdded (host ∷ hosts) = elim (Settled-cases (s.add_host host)) [
    | inl (t, e) ↦ rw e ((host, e), fulfilled-IsAdded hosts)
    | inr (x, e) ↦ rw e (fulfilled-IsAdded hosts)
  ]

  onboard_hosts-IsEarned :
      (ssh_config : String) → IsEarned s (onboard_hosts to_lower_case join_home b s ssh_config)
  unfolding onboard_hosts register_hosts
  onboard_hosts-IsEarned ssh_config =
      let parsed = parse_ssh_hosts to_lower_case join_home (s.parse ssh_config) in
      let hosts = get_ssh_hosts_with_valid_ssh_keys s.read_file parsed.valid_hosts in
      let choose = choose_hosts to_lower_case join_home b s hosts in
      bind-IsEarned s choose (register_hosts to_lower_case join_home b s)
        (choose_hosts-IsEarned hosts)
        (λ registrable.
          finish_with-IsEarned (fulfilled (map s.add_host registrable))
            (fulfilled-IsAdded registrable))

  read_and_onboard-IsEarned :
      (path : String) → IsEarned s (read_and_onboard to_lower_case join_home b s path)
  unfolding read_and_onboard
  read_and_onboard-IsEarned path =
      let onboard = onboard_hosts to_lower_case join_home b s in
      bind-IsEarned s (await s.tracked) (λ u. await (s.read_file path) >>= onboard)
        (await-IsEarned s s.tracked)
        (λ u.
          bind-IsEarned s (await (s.read_file path)) onboard (await-IsEarned s (s.read_file path))
            onboard_hosts-IsEarned)

  quickstart_handler-IsEarned : IsEarned s (quickstart_handler to_lower_case join_home b s)
  unfolding quickstart_handler
  quickstart_handler-IsEarned =
      let login = or_else (welcome_back s) (λ failure. first_login s) in
      let rest = read_and_onboard to_lower_case join_home b s in
      bind-IsEarned s (validate_quickstart_args s) (λ path. login >>= (λ u. rest path))
        (validate_quickstart_args-IsEarned s)
        (λ path.
          bind-IsEarned s login (λ u. rest path)
            (or_else-IsEarned s (welcome_back s) (λ failure. first_login s)
              (welcome_back-IsEarned s) (λ failure. first_login-IsEarned s))
            (λ u. read_and_onboard-IsEarned path))

  earned_zero :
      (run : Quickstart (Unit {0}))
      → IsEarned s run
      → run.1 ≡ exited 0
      → Some (IsCongratulation s) run.0
  earned_zero (es, returned a) h e = absurd (ground arith)
  earned_zero (es, threw failure) h e = absurd (ground arith)
  earned_zero (es, exited code) (inl n) e = absurd (ground arith)
  earned_zero (es, exited code) (inr h) e = h

  -- If the quickstart ends the process with the code 0, the user was congratulated on at least one
  -- target, and the registration of some host gave each target of that congratulation, whatever the user, the files, the hosts and the backend did.
  pub quickstart_handler-Some :
      (quickstart_handler to_lower_case join_home b s).1 ≡ exited 0
      → Some (IsCongratulation s) (quickstart_handler to_lower_case join_home b s).0
  quickstart_handler-Some =
      earned_zero (quickstart_handler to_lower_case join_home b s) quickstart_handler-IsEarned
