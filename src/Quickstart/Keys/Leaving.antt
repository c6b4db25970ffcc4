-- ===== src/Quickstart/Keys/Leaving.antt =====
-- How the questions about the keys can leave the process.
use zli.Prelude.{
  String, string_key, ◌==◌, Bool, true, false, Option, none, some, [], ◌∷◌, List, ℕ, ◌≡◌, refl, inl,
  inr, Bool-cases,
}
use zli.Effect.{Run, Outcome, returned, exited, threw, Settled, resolved, rejected, pure, ◌>>=◌}
use zli.Quickstart.Hosts.{ValidSshHost}
use zli.Quickstart.Keys.{
  KeySystem, KeyParse, key_parsed, key_encrypted, key_unreadable, KeyEvent, with_choice, entered,
  toggled, choice_of_skip, skip_or_exit, choice_of_passphrase, choice_of_parse, choice_of_file,
  choose_host, handle_encrypted_identity_file, prompt_convert_hosts, on_validate,
}

-- A run leaves the process by the code, if it does.
abbrev pub LeavesBy : ℕ → {A : Type 0} → Outcome A → Type 0
LeavesBy code (returned a) = Unit
LeavesBy code (threw failure) = Unit
LeavesBy code (exited c) = c ≡ code

LeavesBy->>= :
    {A B : Type 0} (code : ℕ) (m : Run KeyEvent A) (f : A → Run KeyEvent B)
    → LeavesBy code m.1
    → ((a : A) → LeavesBy code (f a).1)
    → LeavesBy code (m >>= f).1
LeavesBy->>= code (es, returned a) f h k = k a
LeavesBy->>= code (es, threw failure) f h k = tt
LeavesBy->>= code (es, exited c) f h k = h

module _ (s : KeySystem) (code : ℕ) (leaves : s.on_exit 1 ≡ exited code) where
  toggled-LeavesBy : (answer : Option Bool) → LeavesBy code (toggled s answer).1
  toggled-LeavesBy none = tt
  toggled-LeavesBy (some answer) = tt

  choice_of_skip-LeavesBy :
      (name : String) (skip : Bool) → LeavesBy code (choice_of_skip s name skip).1
  choice_of_skip-LeavesBy name true = tt
  choice_of_skip-LeavesBy name false = rw leaves refl

  skip_or_exit-LeavesBy : (name : String) → LeavesBy code (skip_or_exit s name).1
  unfolding skip_or_exit
  skip_or_exit-LeavesBy name =
      LeavesBy->>= code (toggled s (s.skip_prompt name)) (choice_of_skip s name)
        (toggled-LeavesBy (s.skip_prompt name)) (choice_of_skip-LeavesBy name)

  choice_of_passphrase-LeavesBy :
      (name : String) (answer : Option String)
      → LeavesBy code (entered s answer >>= choice_of_passphrase s name).1
  choice_of_passphrase-LeavesBy name none = skip_or_exit-LeavesBy name
  choice_of_passphrase-LeavesBy name (some passphrase) = tt

  choice_of_parse-LeavesBy :
      (name contents : String) (parse : KeyParse)
      → LeavesBy code (choice_of_parse s name contents parse).1
  unfolding handle_encrypted_identity_file
  choice_of_parse-LeavesBy name contents key_encrypted =
      choice_of_passphrase-LeavesBy name (s.password_prompt (on_validate s contents) name)
  choice_of_parse-LeavesBy name contents key_parsed = tt
  choice_of_parse-LeavesBy name contents key_unreadable = tt

  choice_of_file-LeavesBy :
      (name : String) (file : Settled String) → LeavesBy code (choice_of_file s name file).1
  choice_of_file-LeavesBy name (rejected failure) = tt
  choice_of_file-LeavesBy name (resolved contents) = elim (Bool-cases (contents == "")) [
    | inl e ↦ rw e tt
    | inr e ↦ rw e (choice_of_parse-LeavesBy name contents (s.parse_private_key contents none))
  ]

  pub prompt_convert_hosts-LeavesBy :
      (hosts : List ValidSshHost) → LeavesBy code (prompt_convert_hosts s hosts).1
  unfolding prompt_convert_hosts choose_host
  prompt_convert_hosts-LeavesBy [] = tt
  prompt_convert_hosts-LeavesBy (host ∷ hosts) =
      LeavesBy->>= code (choose_host s host)
        (λ choice.
          prompt_convert_hosts s hosts >>= (λ configs. pure (with_choice host choice configs)))
        (choice_of_file-LeavesBy host.name (s.read_file host.identity_file))
        (λ choice.
          LeavesBy->>= code (prompt_convert_hosts s hosts)
            (λ configs. pure (with_choice host choice configs))
            (prompt_convert_hosts-LeavesBy hosts) (λ configs. tt))
