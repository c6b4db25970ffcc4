-- ===== src/Quickstart/Hosts/Laws.antt =====
-- The hosts of an ssh config, described without the loop: a host is the first block of its name.
use zli.Prelude.{ap₂, Option, some, ◌&&◌, fun_ext}
use zli.Prelude.{subst}
use zli.Prelude.{◌⊎◌}
use zli.Prelude.{◌||◌}
use zli.Prelude.{
  String, string_key, ◌==◌, Bool, true, false, not, none, List, [], ◌∷◌, ◌++◌, if◌then◌else◌,
  filter, ◌≡◌, refl, sym, ap, ◌∙◌, arith, Bool-cases, inl, inr, append-nil, append_assoc, eq_iff,
}
use zli.Dict.Defs.{Dict, get, set}
use zli.Dict.Laws.{get-set}
use Prim.Native.String.{len, slice}
use text.Mathlib.Text.{starts_with}
use zli.Quickstart.Hosts.{
  SshHostConfig, Port, standard_port, parsed_port, SshConfigParseError, missing_host_name,
  missing_user, missing_identity_file, port_of, check_host, get_ssh_host_config_value, resolve_home,
  resolved_home, SshConfigHostBlock, ValidSshHost, InvalidSshHost, ParsedHost, valid_host,
  invalid_host, HostParse, no_hosts, with_host, is_present, is_param, parse_host, add_block,
  add_blocks, parse_ssh_hosts,
}

-- The blocks other than the global one, each name once.
unfoldable pub first_blocks : List SshConfigHostBlock → List SshConfigHostBlock
first_blocks [] = []
first_blocks (b ∷ bs) =
    let rest = first_blocks bs in
    if b.value == "*"
    then rest
    else b ∷ filter (λ (c : SshConfigHostBlock). not (c.value == b.value)) rest

unfoldable unseen : Dict String Bool → List SshConfigHostBlock → List SshConfigHostBlock
unseen seen = filter (λ (c : SshConfigHostBlock). not (is_present (get c.value seen)))

unseen_of_seen :
    (seen : Dict String Bool) (name : String) (bs : List SshConfigHostBlock)
    → is_present (get name seen) ≡ true
    → unseen seen (filter (λ (c : SshConfigHostBlock). not (c.value == name)) bs) ≡ unseen seen bs
unfolding unseen
unseen_of_seen seen name [] h = refl
unseen_of_seen seen name (c ∷ bs) h =
    ground (arith, eq_iff c.value name, unseen_of_seen seen name bs h)

unseen-set :
    (seen : Dict String Bool) (name : String) (bs : List SshConfigHostBlock)
    → unseen seen (filter (λ (c : SshConfigHostBlock). not (c.value == name)) bs)
      ≡ unseen (set name true seen) bs
unfolding unseen
unseen-set seen name [] = refl
unseen-set seen name (c ∷ bs) = ground (
  arith,
  eq_iff c.value name,
  eq_iff name c.value,
  get-set name c.value true seen,
  unseen-set seen name bs,
)

unseen_first :
    (b : SshConfigHostBlock) (bs : List SshConfigHostBlock) (seen : Dict String Bool)
    → ((b.value == "*") || is_present (get b.value seen)) ≡ true
    → unseen seen (first_blocks (b ∷ bs)) ≡ unseen seen (first_blocks bs)
unfolding unseen first_blocks
unseen_first b bs seen h = ground (arith, unseen_of_seen seen b.value (first_blocks bs))

unseen_first_new :
    (b : SshConfigHostBlock) (bs : List SshConfigHostBlock) (seen : Dict String Bool)
    → (b.value == "*") ≡ false
    → is_present (get b.value seen) ≡ false
    → unseen seen (first_blocks (b ∷ bs)) ≡ b ∷ unseen (set b.value true seen) (first_blocks bs)
unfolding unseen first_blocks
unseen_first_new b bs seen h k =
    rw (h, k) (ap (λ l. b ∷ l) (unseen-set seen b.value (first_blocks bs)))

set_of_fresh :
    (k : String) (h : ValidSshHost) (d : Dict String ValidSshHost)
    → get k d ≡ none
    → set k h d ≡ d ++ ((k, h) ∷ [])
unfolding get set
set_of_fresh k h [] e = refl
set_of_fresh k h ((j, g) ∷ d) e = ground (arith, set_of_fresh k h d)

abbrev pub valid_entry : String → ParsedHost → Dict String ValidSshHost
valid_entry name (valid_host host) = (name, host) ∷ []
valid_entry name (invalid_host host) = []

abbrev pub invalid_entry : ParsedHost → List InvalidSshHost
invalid_entry (valid_host host) = []
invalid_entry (invalid_host host) = host ∷ []

-- Every valid host was seen.
abbrev IsTracked : HostParse → Type 0
IsTracked p = (k : String) → is_present (get k p.seen) ≡ false → get k p.valid_hosts ≡ none

with_host-IsTracked :
    (name : String) (host : ParsedHost) (p : HostParse)
    → IsTracked p
    → IsTracked (with_host name host p)
with_host-IsTracked name (valid_host host) p t k h =
    ground (arith, get-set name k true p.seen, get-set name k host p.valid_hosts, t k)
with_host-IsTracked name (invalid_host host) p t k h =
    ground (arith, get-set name k true p.seen, t k)

with_host_lem :
    (name : String) (host : ParsedHost) (p : HostParse)
    → get name p.valid_hosts ≡ none
    → ((with_host name host p).seen ≡ set name true p.seen)
      × ((with_host name host p).valid_hosts ≡ p.valid_hosts ++ valid_entry name host)
      × ((with_host name host p).invalid_ssh_hosts ≡ p.invalid_ssh_hosts ++ invalid_entry host)
with_host_lem name (valid_host host) p e =
    (refl, set_of_fresh name host p.valid_hosts e, sym (append-nil p.invalid_ssh_hosts))
with_host_lem name (invalid_host host) p e = (refl, sym (append-nil p.valid_hosts), refl)

module _ (to_lower_case join_home : String → String) where
  abbrev pub valid_entries : List SshConfigHostBlock → Dict String ValidSshHost
  valid_entries [] = []
  valid_entries (b ∷ bs) =
      valid_entry b.value (parse_host to_lower_case join_home b) ++ valid_entries bs

  abbrev pub invalid_entries : List SshConfigHostBlock → List InvalidSshHost
  invalid_entries [] = []
  invalid_entries (b ∷ bs) =
      invalid_entry (parse_host to_lower_case join_home b) ++ invalid_entries bs

  -- What the loop adds to its variables.
  abbrev Adds : List SshConfigHostBlock → HostParse → HostParse → Type 0
  Adds bs p q =
      (q.valid_hosts ≡ p.valid_hosts ++ valid_entries bs)
      × (q.invalid_ssh_hosts ≡ p.invalid_ssh_hosts ++ invalid_entries bs)

  Adds-same :
      (bs cs : List SshConfigHostBlock) (p q r : HostParse)
      → q.valid_hosts ≡ p.valid_hosts
      → q.invalid_ssh_hosts ≡ p.invalid_ssh_hosts
      → bs ≡ cs
      → Adds bs q r
      → Adds cs p r
  Adds-same bs cs p q r v i e (h, k) =
      (h ∙ ap₂ (λ d l. d ++ valid_entries l) v e, k ∙ ap₂ (λ d l. d ++ invalid_entries l) i e)

  Adds-first : (p : HostParse) → Adds (unseen p.seen (first_blocks [])) p p
  unfolding unseen first_blocks
  Adds-first p = (sym (append-nil p.valid_hosts), sym (append-nil p.invalid_ssh_hosts))

  Adds-with_host :
      (b : SshConfigHostBlock) (bs : List SshConfigHostBlock) (p q : HostParse)
      → get b.value p.valid_hosts ≡ none
      → Adds bs (with_host b.value (parse_host to_lower_case join_home b) p) q
      → Adds (b ∷ bs) p q
  Adds-with_host b bs p q e (h, k) =
      let host = parse_host to_lower_case join_home b in
      let (s, v, i) = with_host_lem b.value host p e in
      (
        h
            ∙ ap (λ l. l ++ valid_entries bs) v
            ∙ append_assoc p.valid_hosts (valid_entry b.value host) (valid_entries bs),
        k
            ∙ ap (λ l. l ++ invalid_entries bs) i
            ∙ append_assoc p.invalid_ssh_hosts (invalid_entry host) (invalid_entries bs),
      )

  -- The variables but the messages are those before, or the host of the block was added.
  add_block-cases :
      (b : SshConfigHostBlock) (p : HostParse)
      → (((b.value == "*") || is_present (get b.value p.seen)) ≡ true)
          × ((add_block to_lower_case join_home b p).seen ≡ p.seen)
          × ((add_block to_lower_case join_home b p).valid_hosts ≡ p.valid_hosts)
          × ((add_block to_lower_case join_home b p).invalid_ssh_hosts ≡ p.invalid_ssh_hosts)
        ⊎ ((b.value == "*") ≡ false)
          × (is_present (get b.value p.seen) ≡ false)
          × (add_block to_lower_case join_home b p
              ≡ with_host b.value (parse_host to_lower_case join_home b) p)
  unfolding add_block
  add_block-cases b p = elim (Bool-cases (b.value == "*")) [
    | inl star ↦ inl (rw star refl, rw star refl, rw star refl, rw star refl)
    | inr host ↦ elim (Bool-cases (is_present (get b.value p.seen))) [
      | inl seen ↦
          inl
            (rw (host, seen) refl, rw (host, seen) refl, rw (host, seen) refl, rw (host, seen) refl)
      | inr new ↦ inr (host, new, rw (host, new) refl)
    ]
  ]

  add_blocks_lem :
      (bs : List SshConfigHostBlock) (p : HostParse)
      → IsTracked p
      → Adds (unseen p.seen (first_blocks bs)) p (add_blocks to_lower_case join_home bs p)
  unfolding add_blocks
  add_blocks_lem [] p t = Adds-first p
  add_blocks_lem (b ∷ bs) p t = elim (add_block-cases b p) [
    | inl (h, s, v, i) ↦
        let q = add_block to_lower_case join_home b p in
        let rest = add_blocks_lem bs q (λ k e. rw v (t k (rw s at e))) in
        let e = ap (λ d. unseen d (first_blocks bs)) s ∙ sym (unseen_first b bs p.seen h) in
        Adds-same _ _ p q (add_blocks to_lower_case join_home bs q) v i e rest
    | inr (host, new, e) ↦
        let q = with_host b.value (parse_host to_lower_case join_home b) p in
        let t' = with_host-IsTracked b.value (parse_host to_lower_case join_home b) p t in
        let rest = add_blocks_lem bs q t' in
        let fresh = t b.value new in
        let (s, v, i) = with_host_lem b.value (parse_host to_lower_case join_home b) p fresh in
        let f =
          ap (λ d. b ∷ unseen d (first_blocks bs)) s
          ∙ sym (unseen_first_new b bs p.seen host new) in
        subst
          (λ (r : HostParse).
            Adds (unseen p.seen (first_blocks (b ∷ bs))) p
              (add_blocks to_lower_case join_home bs r))
          (sym e)
          (let r = add_blocks to_lower_case join_home bs q in
            Adds-same _ _ p p r refl refl f (Adds-with_host b _ p r fresh rest))
  ]

unseen_none : (bs : List SshConfigHostBlock) → unseen [] bs ≡ bs
unfolding unseen get
unseen_none [] = refl
unseen_none (b ∷ bs) = ap (λ l. b ∷ l) (unseen_none bs)

module _ (to_lower_case join_home : String → String) where
  -- Whether a line or a block has the parameter, whose name is in lower case.
  abbrev pub has_param : String → Option String → Bool
  has_param name none = false
  has_param name (some param) = not (param == "") && (to_lower_case param == name)

  -- The value of the first line with the parameter.
  abbrev pub configured : String → List SshHostConfig → Option String
  configured name [] = none
  configured name (l ∷ ls) =
      if has_param (to_lower_case name) l.param then some l.value else configured name ls

  abbrev pub port_or_standard : Option String → Port
  port_or_standard none = standard_port
  port_or_standard (some text) = parsed_port text

  abbrev pub without_tilde : Option String → Option String
  without_tilde none = none
  without_tilde (some path) =
      some (if starts_with path "~" then join_home (slice path 1 (len path)) else path)

  -- The host of a block that has a host name, a user and an identity file, under its name.
  abbrev pub complete :
      String → Option String → Port → Option String → Option String → Dict String ValidSshHost
  complete name (some ip) port (some user) (some file) =
      (
        name,
        record { name = name; host_ip = ip; port = port; username = user; identity_file = file },
      )
      ∷ []
  complete name ip port user file = []

  -- The host of a block that lacks one of them, with an error for each that it lacks.
  abbrev pub errors_if_none : Option String → SshConfigParseError → List SshConfigParseError
  errors_if_none none e = e ∷ []
  errors_if_none (some value) e = []

  abbrev pub with_errors :
      String
      → Option String
      → Port
      → Option String
      → Option String
      → List SshConfigParseError
      → List InvalidSshHost
  with_errors name ip port user file [] = []
  with_errors name ip port user file (e ∷ es) =
      record {
        incomplete_valid_ssh_host = record {
          name = name;
          host_ip = ip;
          port = port;
          username = user;
          identity_file = file;
        };
        parse_errors = e ∷ es;
      }
      ∷ []

  abbrev pub incomplete :
      String → Option String → Port → Option String → Option String → List InvalidSshHost
  incomplete name ip port user file = with_errors name ip port user file (
      errors_if_none ip missing_host_name
      ++ (errors_if_none user missing_user ++ errors_if_none file missing_identity_file))

  abbrev of_block :
      {A : Type 0}
      → (String → Option String → Port → Option String → Option String → A)
      → SshConfigHostBlock
      → A
  of_block f b =
      f b.value (configured "HostName" b.config) (port_or_standard (configured "Port" b.config))
        (configured "User" b.config) (without_tilde (configured "IdentityFile" b.config))

  abbrev pub complete_hosts : List SshConfigHostBlock → Dict String ValidSshHost
  complete_hosts [] = []
  complete_hosts (b ∷ bs) = of_block complete b ++ complete_hosts bs

  abbrev pub incomplete_hosts : List SshConfigHostBlock → List InvalidSshHost
  incomplete_hosts [] = []
  incomplete_hosts (b ∷ bs) = of_block incomplete b ++ incomplete_hosts bs

  has_param_lem :
      (name : String) (o : Option String) → is_param to_lower_case name o ≡ has_param name o
  unfolding is_param
  has_param_lem name none = refl
  has_param_lem name (some param) = refl

  configured_lem :
      (name : String) (ls : List SshHostConfig)
      → get_ssh_host_config_value to_lower_case name ls ≡ configured name ls
  unfolding get_ssh_host_config_value
  configured_lem name [] = refl
  configured_lem name (l ∷ ls) =
      ground (arith, configured_lem name ls, has_param_lem (to_lower_case name) l.param)

  without_tilde_lem : (o : Option String) → resolved_home join_home o ≡ without_tilde o
  unfolding resolve_home
  without_tilde_lem none = refl
  without_tilde_lem (some path) = refl

  port_lem : (o : Option String) → port_of o ≡ port_or_standard o
  port_lem none = refl
  port_lem (some text) = refl

  check_host_lem :
      (name : String) (ip : Option String) (port : Port) (user file : Option String)
      → (valid_entry name (check_host name ip port user file) ≡ complete name ip port user file)
        × (invalid_entry (check_host name ip port user file) ≡ incomplete name ip port user file)
  unfolding check_host
  check_host_lem name (some ip) port (some user) (some file) = (refl, refl)
  check_host_lem name none port none none = (refl, refl)
  check_host_lem name none port none (some file) = (refl, refl)
  check_host_lem name none port (some user) none = (refl, refl)
  check_host_lem name none port (some user) (some file) = (refl, refl)
  check_host_lem name (some ip) port none none = (refl, refl)
  check_host_lem name (some ip) port none (some file) = (refl, refl)
  check_host_lem name (some ip) port (some user) none = (refl, refl)

  parse_host_lem :
      (b : SshConfigHostBlock)
      → (valid_entry b.value (parse_host to_lower_case join_home b) ≡ of_block complete b)
        × (invalid_entry (parse_host to_lower_case join_home b) ≡ of_block incomplete b)
  unfolding parse_host
  parse_host_lem b =
      rw
        (
          configured_lem "HostName" b.config,
          configured_lem "Port" b.config,
          configured_lem "User" b.config,
          configured_lem "IdentityFile" b.config,
          port_lem (configured "Port" b.config),
          without_tilde_lem (configured "IdentityFile" b.config),
        )
        (check_host_lem _ _ _ _ _)

  complete_hosts_lem :
      (bs : List SshConfigHostBlock)
      → (valid_entries to_lower_case join_home bs ≡ complete_hosts bs)
        × (invalid_entries to_lower_case join_home bs ≡ incomplete_hosts bs)
  complete_hosts_lem [] = (refl, refl)
  complete_hosts_lem (b ∷ bs) =
      let (e, f) = parse_host_lem b in
      let (h, k) = complete_hosts_lem bs in (ap₂ (λ x y. x ++ y) e h, ap₂ (λ x y. x ++ y) f k)

  -- The blocks of hosts.
  abbrev pub host_blocks : List SshConfigHostBlock → List SshConfigHostBlock
  host_blocks = filter (λ (b : SshConfigHostBlock). has_param "host" b.param)

  host_blocks_lem :
      (config : List SshConfigHostBlock)
      → filter (λ (b : SshConfigHostBlock). is_param to_lower_case "host" b.param) config
        ≡ host_blocks config
  host_blocks_lem config =
      ap (λ p. filter p config) (fun_ext (λ (b : SshConfigHostBlock). has_param_lem "host" b.param))

  parsed_lem :
      (config : List SshConfigHostBlock)
      → Adds to_lower_case join_home
          (first_blocks
            (filter (λ (b : SshConfigHostBlock). is_param to_lower_case "host" b.param) config))
          no_hosts
          (parse_ssh_hosts to_lower_case join_home config)
  unfolding parse_ssh_hosts no_hosts get
  parsed_lem config =
      let blocks =
        filter (λ (b : SshConfigHostBlock). is_param to_lower_case "host" b.param) config in
      Adds-same to_lower_case join_home _ _ no_hosts no_hosts
        (add_blocks to_lower_case join_home blocks no_hosts) refl refl
        (unseen_none (first_blocks blocks))
        (add_blocks_lem to_lower_case join_home blocks no_hosts (λ k e. refl))

  -- What `parseSSHHosts` returns are the first blocks of each name other than the global one, in the
  -- order of the file: as valid hosts, under their names, those that have a host name, a user and an
  -- identity file, and as invalid hosts the others, each with an error for what it lacks.
  pub parse_ssh_hosts_lem :
      (config : List SshConfigHostBlock)
      → ((parse_ssh_hosts to_lower_case join_home config).valid_hosts
          ≡ complete_hosts (first_blocks (host_blocks config)))
        × ((parse_ssh_hosts to_lower_case join_home config).invalid_ssh_hosts
            ≡ incomplete_hosts (first_blocks (host_blocks config)))
  unfolding no_hosts
  parse_ssh_hosts_lem config =
      let (v, i) = parsed_lem config in
      let blocks = ap first_blocks (host_blocks_lem config) in
      let (h, k) = complete_hosts_lem (first_blocks (host_blocks config)) in
      (
        v ∙ ap (valid_entries to_lower_case join_home) blocks ∙ h,
        i ∙ ap (invalid_entries to_lower_case join_home) blocks ∙ k,
      )
