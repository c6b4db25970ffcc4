-- ===== src/Quickstart/Register/Laws.antt =====
-- Which targets a poll can return, and when the name of a target is discovered.
use zli.Prelude.{
  ap, ℕ, String, string_key, ◌==◌, Bool, true, false, Option, none, some, List, [], ◌∷◌, find,
  filter, ◌≡◌, refl, arith, All, Bool-cases, Option-cases, inl, inr, ◌↔◌,
}
use zli.Dict.Defs.{Dict, get}
use zli.Effect.{Settled, resolved, rejected, Settled-cases}
use zli.Quickstart.Types.{BzeroAgentSummary}
use zli.Quickstart.Register.{
  PollAnswer, poll_target, poll_attempts, is_candidate, check_target, known_id, found_or_not,
  search_listed, attempt_with, RemoteHost, discovered, run_autodiscovery_on_ssh_host,
  connection_closed, script_run, finally_closed, script_closed, RemoteEvent, Discovery,
  already_installed, discovery_failed, stays_open,
}

found_in_filter {ℓ} :
    {A : Type ℓ} (p q : A → Bool) (xs : List A) {x : A} → find q (filter p xs) ≡ some x → p x ≡ true
found_in_filter p q [] h = cc
found_in_filter p q (y ∷ xs) {x} h = elim (Bool-cases (p y)) [
  | inl e ↦ elim (Bool-cases (q y)) [
    | inl f ↦ let same : some y ≡ some x = (rw (e, f) at h) in ground arith
    | inr f ↦ found_in_filter p q xs (rw (e, f) at h)
  ]
  | inr e ↦ found_in_filter p q xs (rw e at h)
]

-- The backend answers with the target that it is asked for.
abbrev pub AnswersById : PollAnswer → Type 0
AnswersById answer =
    (id : String) (t : BzeroAgentSummary) → answer.agent id ≡ resolved t → t.id ≡ id

module _ (target_name : String) (excluded : Dict String BzeroAgentSummary) where
  -- A target that may be returned: it is online, and its id is not among those excluded.
  abbrev pub IsAcceptable : Settled BzeroAgentSummary → Type 0
  IsAcceptable (rejected failure) = Unit
  IsAcceptable (resolved t) = (t.is_online ≡ true) × (get t.id excluded ≡ none)

  abbrev IsNew : Option String → Type 0
  IsNew none = Unit
  IsNew (some id) = get id excluded ≡ none

  check_target-IsAcceptable :
      (t : BzeroAgentSummary) → get t.id excluded ≡ none → IsAcceptable (check_target t)
  unfolding check_target
  check_target-IsAcceptable t h = ground arith

  -- Of an attempt: how it settles is acceptable, and so is the id that it remembers.
  abbrev IsSafe : Option String × Settled BzeroAgentSummary → Type 0
  IsSafe (id, settled) = IsNew id × IsAcceptable settled

  candidate-new :
      (t : BzeroAgentSummary)
      → is_candidate target_name excluded t ≡ true
      → get t.id excluded ≡ none
  candidate-new t h = ground arith

  found_or_not-IsSafe :
      (target_id : Option String) (targets : List BzeroAgentSummary)
      → IsNew target_id
      → IsSafe (
          found_or_not target_name excluded target_id (
            find
              (λ (t : BzeroAgentSummary). t.name == target_name)
              (filter (is_candidate target_name excluded) targets)))
  found_or_not-IsSafe target_id targets n =
      let listed = filter (is_candidate target_name excluded) targets in
      let named = λ (t : BzeroAgentSummary). t.name == target_name in
      elim (Option-cases (find named listed)) [
        | inl e ↦ rw e (n, tt)
        | inr (t, e) ↦
            let new =
              candidate-new t
                (found_in_filter (is_candidate target_name excluded) named targets e) in
            rw e (new, check_target-IsAcceptable t new)
      ]

  known_id-IsNew : (target_id : Option String) → IsNew target_id → IsNew (known_id target_id)
  known_id-IsNew none n = tt
  known_id-IsNew (some id) n = elim (Bool-cases (id == "")) [ inl e ↦ rw e tt | inr e ↦ rw e n ]

  search_listed-IsSafe :
      (target_id : Option String) (listed : Settled (List BzeroAgentSummary))
      → IsNew target_id
      → IsSafe (search_listed target_name excluded target_id listed)
  search_listed-IsSafe target_id (resolved targets) n = found_or_not-IsSafe target_id targets n
  search_listed-IsSafe target_id (rejected failure) n = (n, tt)

  attempt_with-IsSafe :
      (target_id known : Option String) (answer : PollAnswer)
      → IsNew target_id
      → IsNew known
      → AnswersById answer
      → IsSafe (attempt_with target_name excluded target_id known answer)
  attempt_with-IsSafe target_id none answer n k h = search_listed-IsSafe target_id answer.listed n
  attempt_with-IsSafe target_id (some id) answer n k h = elim (Settled-cases (answer.agent id)) [
    | inl (t, e) ↦ rw e (n, check_target-IsAcceptable t (rw (h id t e) k))
    | inr (failure, e) ↦ rw e (n, tt)
  ]

  poll_target-IsSafe :
      (target_id : Option String) (answer : PollAnswer)
      → IsNew target_id
      → AnswersById answer
      → IsSafe (poll_target target_name excluded target_id answer)
  unfolding poll_target
  poll_target-IsSafe target_id answer n h =
      attempt_with-IsSafe target_id (known_id target_id) answer n (known_id-IsNew target_id n) h

  poll_attempts-IsAcceptable :
      (target_id : Option String) (answers : List PollAnswer)
      → IsNew target_id
      → All AnswersById answers
      → All IsAcceptable (poll_attempts target_name excluded target_id answers)
  unfolding poll_attempts
  poll_attempts-IsAcceptable target_id [] n h = tt
  poll_attempts-IsAcceptable target_id (answer ∷ answers) n (h, hs) =
      let (new, good) = poll_target-IsSafe target_id answer n h in
      (
        good,
        poll_attempts-IsAcceptable (poll_target target_name excluded target_id answer).0 answers new
            hs,
      )

  -- When the backend answers each request for an id with the target of that id, no attempt of a poll
  -- returns a target that is not online, or one of the targets that were there before.
  poll_attempts-All :
      (answers : List PollAnswer)
      → All AnswersById answers
      → All IsAcceptable (poll_attempts target_name excluded none answers)
  poll_attempts-All answers h = poll_attempts-IsAcceptable none answers tt h

abbrev pub IsRejected {ℓ} : {A : Type ℓ} → Settled A → Type 0
IsRejected (resolved a) = ⊥
IsRejected (rejected failure) = Unit

abbrev pub IsResolved {ℓ} : {A : Type ℓ} → Settled A → Type 0
IsResolved (resolved a) = Unit
IsResolved (rejected failure) = ⊥

-- The connection of a host is closed last, and the script runs at most once.
abbrev pub IsSuccess : RemoteHost → String → Type 0
IsSuccess r name =
    (r.connected ≡ resolved tt)
    × IsRejected r.agent_version
    × IsResolved r.script
    × (r.script_exit ≡ resolved 0)
    × (r.trimmed_hostname ≡ resolved name)
    × ((name == "") ≡ false)
    × (r.closed ≡ resolved tt)

module _ (connected version : Settled (Unit {0})) (script : Settled String) (exit : Settled ℕ)
    (hostname : Settled String) (closed : Settled (Unit {0})) where
  abbrev remote : RemoteHost
  remote = record {
    connected = connected;
    agent_version = version;
    script = script;
    script_exit = exit;
    trimmed_hostname = hostname;
    closed = closed;
  }

closed_only_if :
    (closed : Settled (Unit {0})) (es : List RemoteEvent) (d : Discovery) (name : String)
    → (finally_closed closed (es, d)).1 ≡ discovered name
    → (d ≡ discovered name) × (closed ≡ resolved tt)
closed_only_if (resolved c) es (discovered n) name h = (h, refl)
closed_only_if (rejected f) es (discovered n) name h = ground arith
closed_only_if (resolved c) es already_installed name h = ground arith
closed_only_if (rejected f) es already_installed name h = ground arith
closed_only_if (resolved c) es (discovery_failed g) name h = ground arith
closed_only_if (rejected f) es (discovery_failed g) name h = ground arith
closed_only_if closed es stays_open name h = ground arith

script_only_if :
    (exit : Settled ℕ) (hostname : Settled String) (name : String)
    → script_closed exit hostname ≡ discovered name
    → (exit ≡ resolved 0) × (hostname ≡ resolved name) × ((name == "") ≡ false)
script_only_if (rejected f) hostname name h = ground arith
script_only_if (resolved x) (rejected f) name h = ground arith
script_only_if (resolved x) (resolved n) name h = ground arith

discovered_only_if :
    (connected version : Settled (Unit {0})) (script : Settled String) (exit : Settled ℕ)
    (hostname : Settled String) (closed : Settled (Unit {0})) (name : String)
    → (run_autodiscovery_on_ssh_host (remote connected version script exit hostname closed)).1
      ≡ discovered name
    → IsSuccess (remote connected version script exit hostname closed) name
unfolding run_autodiscovery_on_ssh_host
discovered_only_if (rejected f) version script exit hostname closed name h = ground arith
discovered_only_if (resolved c) (resolved v) script exit hostname closed name h =
    absurd (ground (arith, closed_only_if closed [] already_installed name h))
discovered_only_if (resolved c) (rejected f) (rejected g) exit hostname closed name h =
    absurd (ground (arith, closed_only_if closed [] (discovery_failed g) name h))
discovered_only_if (resolved c) (rejected f) (resolved s) exit hostname closed name h =
    let (d, k) = closed_only_if closed (script_run ∷ []) (script_closed exit hostname) name h in
    let (x, n, e) = script_only_if exit hostname name d in (refl, tt, tt, x, n, e, k)

discovered_if :
    (connected version : Settled (Unit {0})) (script : Settled String) (exit : Settled ℕ)
    (hostname : Settled String) (closed : Settled (Unit {0})) (name : String)
    → IsSuccess (remote connected version script exit hostname closed) name
    → run_autodiscovery_on_ssh_host (remote connected version script exit hostname closed)
      ≡ (script_run ∷ connection_closed ∷ [], discovered name)
unfolding run_autodiscovery_on_ssh_host
discovered_if connected (rejected f) (resolved s) exit hostname closed name (e, v, t, x, n, m, c) =
    rw (e, x, n, m, c) refl
discovered_if connected (resolved f) script exit hostname closed name h = absurd h.1
discovered_if connected (rejected f) (rejected g) exit hostname closed name h = absurd h.2

-- The name of a target is discovered exactly if the connection was made, no agent was installed, the
-- script was received and ended with the code 0, the host answered with a name that is not empty, and
-- the connection was closed. Then the script ran once, and the connection was closed after it.
run_autodiscovery_on_ssh_host_lem :
    (r : RemoteHost) (name : String)
    → ((run_autodiscovery_on_ssh_host r).1 ≡ discovered name ↔ IsSuccess r name)
      × ((run_autodiscovery_on_ssh_host r ≡ (script_run ∷ connection_closed ∷ [], discovered name))
          ↔ IsSuccess r name)
unfolding run_autodiscovery_on_ssh_host
run_autodiscovery_on_ssh_host_lem r name =
    let only_if =
      discovered_only_if r.connected r.agent_version r.script r.script_exit r.trimmed_hostname
        r.closed name in
    let if_so =
      discovered_if r.connected r.agent_version r.script r.script_exit r.trimmed_hostname r.closed
        name in
    ((only_if, λ h. ap (λ p. p.1) (if_so h)), (λ e. only_if (ap (λ p. p.1) e), if_so))
