-- ===== src/Quickstart/Keys/Laws.antt =====
-- The configurations that the user is asked passphrases for.
use zli.Quickstart.Keys.{KeyEvent}
use zli.Prelude.{
  String, string_key, ◌==◌, Bool, true, Option, none, some, List, [], ◌∷◌, ◌≡◌, refl, arith, eq_iff,
  All, Bool-cases, Option-cases, inl, inr, ◌⊎◌, ℕ,
}
use zli.Effect.{
  Run, ◌>>=◌, Outcome, returned, exited, threw, Settled, resolved, rejected, Settled-cases,
}
use zli.Quickstart.Types.{ValidSshHostAndConfig}
use zli.Quickstart.Hosts.{ValidSshHost}
use zli.Quickstart.Keys.{
  KeySystem, KeyParse, key_parsed, key_encrypted, key_unreadable, HostChoice, left_out, used,
  skip_or_exit, choose_host, handle_encrypted_identity_file, on_validate, prompt_convert_hosts,
  choice_of_parse, with_choice, ssh_config,
}

KeyParse-cases : (k : KeyParse) → (k ≡ key_parsed) ⊎ (k ≡ key_unreadable) ⊎ (k ≡ key_encrypted)
KeyParse-cases key_parsed = inl refl
KeyParse-cases key_unreadable = inr (inl refl)
KeyParse-cases key_encrypted = inr (inr refl)

module _ (s : KeySystem) where
  -- The key file of a configuration is unreadable or empty, or it can be opened as the configuration
  -- says: without a passphrase or with the one that is in it.
  abbrev pub IsOpenedBy : Option String → Settled String → Type 0
  IsOpenedBy passphrase (rejected failure) = Unit
  IsOpenedBy passphrase (resolved contents) =
      (contents ≡ "")
      ⊎ (s.parse_private_key contents passphrase ≡ key_parsed)
      ⊎ (s.parse_private_key contents none ≡ key_unreadable)

  abbrev pub IsUsable : ValidSshHostAndConfig → Type 0
  IsUsable c = IsOpenedBy c.config.passphrase (s.read_file c.config.identity)

  -- What holds of what a run returns.
  abbrev pub Returns {ℓ κ} : {A : Type ℓ} → (A → Type κ) → Outcome A → Type κ
  Returns P (returned a) = P a
  Returns P (exited code) = Unit
  Returns P (threw failure) = Unit

  abbrev IsChosen : Settled String → HostChoice → Type 0
  IsChosen file left_out = Unit
  IsChosen file (used passphrase) = IsOpenedBy passphrase file

  -- A prompt gives only answers that its validation function accepts.
  abbrev pub IsValidating : Type 0
  IsValidating =
      (validate : String → Bool) (host_name answer : String)
      → s.password_prompt validate host_name ≡ some answer
      → validate answer ≡ true

  abbrev pub Leaves : Type 0
  Leaves = (code : ℕ) × (s.on_exit 1 ≡ exited code)

  skip_or_exit_lem :
      (name : String) (file : Settled String)
      → Leaves
      → Returns (IsChosen file) (skip_or_exit s name).1
  unfolding skip_or_exit
  skip_or_exit_lem name file (code, e) = elim (Option-cases (s.skip_prompt name)) [
    | inl f ↦ rw (f, e) tt
    | inr (b, f) ↦ elim (Bool-cases b) [ inl g ↦ rw (f, g) tt | inr g ↦ rw (f, g, e) tt ]
  ]

  -- The answer to the password prompt, which its validation has tried.
  entered_lem :
      (name contents answer : String)
      → IsValidating
      → s.password_prompt (on_validate s contents) name ≡ some answer
      → s.parse_private_key contents (some answer) ≡ key_parsed
  unfolding on_validate
  entered_lem name contents answer v e = ground (arith, v (on_validate s contents) name answer e)

  choice_of_parse_lem :
      (name contents : String)
      → IsValidating
      → Leaves
      → Returns
          (IsChosen (resolved contents))
          (choice_of_parse s name contents (s.parse_private_key contents none)).1
  unfolding handle_encrypted_identity_file
  choice_of_parse_lem name contents v l =
      elim (KeyParse-cases (s.parse_private_key contents none)) [
        | inl e ↦ rw e (inr (inl e))
        | inr (inl e) ↦ rw e (inr (inr e))
        | inr (inr e) ↦
            rw e (elim (Option-cases (s.password_prompt (on_validate s contents) name)) [
              | inl f ↦ rw f (skip_or_exit_lem name (resolved contents) l)
              | inr (answer, f) ↦ rw f (inr (inl (entered_lem name contents answer v f)))
            ])
      ]

  choose_host_lem :
      (host : ValidSshHost)
      → IsValidating
      → Leaves
      → Returns (IsChosen (s.read_file host.identity_file)) (choose_host s host).1
  unfolding choose_host handle_encrypted_identity_file on_validate
  choose_host_lem host v l = elim (Settled-cases (s.read_file host.identity_file)) [
    | inl (contents, e) ↦ rw e elim (Bool-cases (contents == "")) [
      | inl empty ↦ rw empty (inl ((eq_iff contents "").0 empty))
      | inr full ↦ rw full (choice_of_parse_lem host.name contents v l)
    ]
    | inr (failure, e) ↦ rw e tt
  ]

  Returns->>= :
      {A B : Type 0} (P : A → Type 0) (Q : B → Type 0) (m : Run KeyEvent A) (f : A → Run KeyEvent B)
      → Returns P m.1
      → ((a : A) → P a → Returns Q (f a).1)
      → Returns Q (m >>= f).1
  Returns->>= P Q (es, returned a) f h k = k a h
  Returns->>= P Q (es, exited code) f h k = tt
  Returns->>= P Q (es, threw failure) f h k = tt

  with_choice_lem :
      (host : ValidSshHost) (choice : HostChoice) (configs : List ValidSshHostAndConfig)
      → IsChosen (s.read_file host.identity_file) choice
      → All IsUsable configs
      → All IsUsable (with_choice host choice configs)
  unfolding ssh_config
  with_choice_lem host left_out configs h k = k
  with_choice_lem host (used passphrase) configs h k = (h, k)

  -- When a prompt gives only answers that it has validated, and the caller's function for leaving
  -- does leave, every configuration that is returned has a key file that cannot be read or parsed,
  -- or is empty, or that the passphrase in the configuration, or none if it has none, opens.
  pub prompt_convert_hosts-Returns :
      (hosts : List ValidSshHost)
      → IsValidating
      → Leaves
      → Returns (All IsUsable) (prompt_convert_hosts s hosts).1
  unfolding prompt_convert_hosts
  prompt_convert_hosts-Returns [] v l = tt
  prompt_convert_hosts-Returns (host ∷ hosts) v l =
      Returns->>= (IsChosen (s.read_file host.identity_file)) (All IsUsable) (choose_host s host) _
        (choose_host_lem host v l)
        (λ choice h.
          Returns->>= (All IsUsable) (All IsUsable) (prompt_convert_hosts s hosts) _
            (prompt_convert_hosts-Returns hosts v l)
            (λ configs k. with_choice_lem host choice configs h k))
