-- ===== src/Policy/Create/Ends.antt =====
-- How each of the four handlers ends.
use zli.Prelude.{
  String, Bool, true, false, ◌||◌, Option, none, some, List, [], ◌∷◌, ◌≡◌, refl, arith, inl, inr,
  any, string_key, if◌then◌else◌,
}
use zli.Dict.Defs.{get}
use zli.Effect.{
  returned, exited, threw, Run, emit, clean_exit, pure, ◌>>◌, Settled, resolved, rejected, ◌>>=◌,
}
use zli.Lists.Targets.{TargetKind}
use zli.Policy.Types.{Subject, Group, PolicyTarget}
use zli.Policy.Identifiers.{
  IdentifierError, IdentifierMap, parse_unique_resource, get_subjects_by_email, get_groups_by_name,
  get_environment_by_name, check_all_identifiers_exist, check_all_identifiers_are_single,
  EnvironmentSummary,
}
use zli.Policy.Service.{SubjectSummary, GroupSummary}
use zli.Policy.Create.{
  CreateRequest, CreateError, must_provide_target_user, requested, warned_created, Created,
  Settings, BaseArgs, Creating, fail, await, begun, search, first_target, first_targets,
  chosen_targets, demand_either, get_targets_by_name_or_id, subject_emails, chosen_groups, members,
  scope, pending_exit, send,
}
use zli.Policy.Create.Handlers.{
  create_cluster_policy_handler, demand_target_user, create_tconnect_policy_handler,
  create_proxy_policy_handler, create_recording_policy_handler, needs_target_user,
}
use zli.Policy.Create.Laws.{
  has_error, has_error-append, EndsWell, IsQuiet, >>=-EndsWell, >>=-IsQuiet, IsPlain,
  parse_names-IsPlain, mapped-IsPlain, exist-IsPlain, are_single-IsPlain, effects-logged,
  awaited-IsQuiet,
}

pure-IsQuiet : {A : Type 0} (e : Bool) (a : A) → IsQuiet e ([], returned a)
pure-IsQuiet e a = record { sends_nothing = refl; says_why = λ code h. absurd (ground arith) }

await-IsQuiet : {A : Type 0} (e : Bool) (r : Settled A) → IsQuiet e (await r)
await-IsQuiet e (resolved a) = pure-IsQuiet e a
await-IsQuiet e (rejected failure) = record {
  sends_nothing = refl;
  says_why = λ code h. absurd (ground arith);
}

fail-IsQuiet : {A : Type 0} (e : Bool) (message : CreateError) → IsQuiet e (fail {A = A} message)
fail-IsQuiet e message = record {
  sends_nothing = refl;
  says_why = λ code h. (ground arith, ground arith);
}

fail_if-IsQuiet : (e b : Bool) → IsQuiet e (if b then fail must_provide_target_user else pure tt)
fail_if-IsQuiet e true = fail-IsQuiet e _
fail_if-IsQuiet e false = pure-IsQuiet e tt

demand_either-IsQuiet : (one other : Option (List String)) → IsQuiet false (demand_either one other)
demand_either-IsQuiet none none = fail-IsQuiet false _
demand_either-IsQuiet none (some names) = pure-IsQuiet false tt
demand_either-IsQuiet (some names) other = pure-IsQuiet false tt

-- A search over what the backend lists, when its answer only maps unique resources.
search-IsQuiet :
    {A B : Type 0} (e : Bool) (find : List String → Settled (List A) → Run IdentifierError (List B))
    → ((names : List String) (listed : Settled (List A)) → IsPlain (find names listed))
    → (o : Option (List String)) (listed : Settled (List A)) → IsQuiet e (search find o listed)
search-IsQuiet e find h none (resolved a) = record {
  sends_nothing = refl;
  says_why = λ code i. absurd (ground arith);
}
search-IsQuiet e find h none (rejected failure) = record {
  sends_nothing = refl;
  says_why = λ code i. absurd (ground arith);
}
search-IsQuiet e find h (some names) listed = awaited-IsQuiet e (find names listed) (h names listed)

subjects-IsPlain :
    (names : List String) (listed : Settled (List SubjectSummary))
    → IsPlain (get_subjects_by_email names listed)
unfolding get_subjects_by_email parse_unique_resource
subjects-IsPlain names (resolved all) = mapped-IsPlain _ _ (parse_names-IsPlain _ _ _ [] names)
subjects-IsPlain names (rejected failure) = λ code h. absurd (ground arith)

groups-IsPlain :
    (names : List String) (listed : Settled (List GroupSummary))
    → IsPlain (get_groups_by_name names listed)
unfolding get_groups_by_name parse_unique_resource
groups-IsPlain names (resolved all) = mapped-IsPlain _ _ (parse_names-IsPlain _ _ _ [] names)
groups-IsPlain names (rejected failure) = λ code h. absurd (ground arith)

environments-IsPlain :
    (names : List String) (listed : Settled (List EnvironmentSummary))
    → IsPlain (get_environment_by_name names listed)
unfolding get_environment_by_name parse_unique_resource
environments-IsPlain names (resolved all) = mapped-IsPlain _ _ (parse_names-IsPlain _ _ _ [] names)
environments-IsPlain names (rejected failure) = λ code h. absurd (ground arith)

first_target-IsQuiet : (e : Bool) (o : Option (List PolicyTarget)) → IsQuiet e (first_target o)
first_target-IsQuiet e none = record {
  sends_nothing = refl;
  says_why = λ code i. absurd (ground arith);
}
first_target-IsQuiet e (some []) = record {
  sends_nothing = refl;
  says_why = λ code i. absurd (ground arith);
}
first_target-IsQuiet e (some (t ∷ ts)) = pure-IsQuiet e t

first_targets-IsQuiet :
    (m : IdentifierMap) (ids : List String) (e : Bool) → IsQuiet e (first_targets m ids)
unfolding first_targets
first_targets-IsQuiet m [] e = pure-IsQuiet e []
first_targets-IsQuiet m (id ∷ ids) e =
    >>=-IsQuiet e _ (first_target (get id m)) (first_target-IsQuiet e (get id m)) (λ t h.
      >>=-IsQuiet _ _ (first_targets m ids) (first_targets-IsQuiet m ids _)
        (λ ts i. pure-IsQuiet _ (t ∷ ts)))

begun-IsQuiet : (e : Bool) (m : Run IdentifierError (Unit {0})) → IsQuiet e (begun m)
begun-IsQuiet e m = record {
  sends_nothing = effects-logged m.0;
  says_why = λ code h. absurd (ground arith);
}

-- A pending exit follows an error.
pub record IsFlagged {A : Type 0} (e : Bool) (m : Creating (Bool × A)) : Type 0 where
  pub flagged : (a : Bool × A) → m.1 ≡ returned a → a.0 ≡ true → (e || has_error m.0) ≡ true

begun_flag :
    (m : Run IdentifierError (Unit {0})) (p : Bool)
    → IsPlain m
    → (begun m).1 ≡ returned p
    → p ≡ true
    → has_error (begun m).0 ≡ true
begun_flag (es, returned u) p h i j = absurd (ground arith)
begun_flag (es, exited code) p h i j = (h code refl).1
begun_flag (es, threw failure) p h i j = absurd (ground arith)

pure-IsFlagged :
    {A : Type 0} (e p : Bool) (a : A) → (p ≡ true → e ≡ true) → IsFlagged e ([], returned (p, a))
pure-IsFlagged e p a h = record { flagged = λ b i j. ground (arith, h) }

module _ {A B : Type 0} (e : Bool) (f : A → Creating (Bool × B)) where
  >>=-IsFlagged :
      (m : Creating A)
      → ((a : A) → m.1 ≡ returned a → IsFlagged (e || has_error m.0) (f a))
      → IsFlagged e (m >>= f)
  >>=-IsFlagged (es, returned a) h = record {
    flagged = λ b i j. ground (arith, (h a refl).flagged b i j, has_error-append es (f a).0);
  }
  >>=-IsFlagged (es, exited code) h = record { flagged = λ b i j. absurd (ground arith) }
  >>=-IsFlagged (es, threw failure) h = record { flagged = λ b i j. absurd (ground arith) }

module _ (kind : String) (m : IdentifierMap) (ids : List String) (e : Bool) where
  chosen_targets-IsQuiet : IsQuiet e (chosen_targets kind m ids)
  unfolding chosen_targets
  chosen_targets-IsQuiet =
      >>=-IsQuiet e _ _ (begun-IsQuiet e (check_all_identifiers_exist kind m ids)) (λ p h.
        >>=-IsQuiet _ _ _ (begun-IsQuiet _ (check_all_identifiers_are_single kind m ids)) (λ q i.
          >>=-IsQuiet _ _ (first_targets m ids) (first_targets-IsQuiet m ids _)
            (λ ts j. pure-IsQuiet _ (p || q, ts))))

  chosen_targets-IsFlagged : IsFlagged e (chosen_targets kind m ids)
  unfolding chosen_targets
  chosen_targets-IsFlagged =
      >>=-IsFlagged e _ (begun (check_all_identifiers_exist kind m ids)) (λ p h.
        >>=-IsFlagged _ _ (begun (check_all_identifiers_are_single kind m ids)) (λ q i.
          >>=-IsFlagged _ _ (first_targets m ids) (λ ts j. pure-IsFlagged _ (p || q) ts (λ k.
            ground (
              arith,
              begun_flag (check_all_identifiers_exist kind m ids) p (exist-IsPlain kind m ids) h,
              begun_flag (check_all_identifiers_are_single kind m ids) q
                  (are_single-IsPlain kind m ids) i,
            )))))

subject_emails-IsQuiet :
    (e : Bool) (users subjects : Option (List String)) → IsQuiet e (subject_emails users subjects)
subject_emails-IsQuiet e none subjects = pure-IsQuiet e subjects
subject_emails-IsQuiet e (some users) subjects = record {
  sends_nothing = refl;
  says_why = λ code h. absurd (ground arith);
}

module _ (s : Settings) where
  chosen_groups-IsQuiet : (e : Bool) (o : Option (List String)) → IsQuiet e (chosen_groups s o)
  chosen_groups-IsQuiet e none = pure-IsQuiet e []
  chosen_groups-IsQuiet e (some names) = awaited-IsQuiet e _ (groups-IsPlain names s.groups)

  members-IsQuiet : (e : Bool) (args : BaseArgs) → IsQuiet e (members s args)
  unfolding members
  members-IsQuiet e args =
      >>=-IsQuiet e _ _ (subject_emails-IsQuiet e args.users args.subjects) (λ emails h.
        >>=-IsQuiet _ _ _
          (search-IsQuiet _ get_subjects_by_email subjects-IsPlain emails s.subjects)
          (λ subjects i.
            >>=-IsQuiet _ _ _ (chosen_groups-IsQuiet _ args.groups)
              (λ groups j. pure-IsQuiet _ (subjects, groups))))

  module _ (kind : String) (kinds : List TargetKind) where
    scope-IsQuiet :
        (one other : Option (List String)) (e : Bool) → IsQuiet e (scope s kind kinds one other)
    unfolding scope
    scope-IsQuiet none other e =
        >>=-IsQuiet e _ _
          (search-IsQuiet e get_environment_by_name environments-IsPlain other s.environments)
          (λ ids h. pure-IsQuiet _ (false, ([], some ids)))
    scope-IsQuiet (some ids) other e =
        >>=-IsQuiet e _ _ (await-IsQuiet e (get_targets_by_name_or_id s kinds)) (λ m h.
          >>=-IsQuiet _ _ _ (chosen_targets-IsQuiet kind m ids _)
            (λ chosen i. pure-IsQuiet _ (chosen.0, (chosen.1, none))))

    scope-IsFlagged :
        (one other : Option (List String)) (e : Bool) → IsFlagged e (scope s kind kinds one other)
    unfolding scope
    scope-IsFlagged none other e =
        >>=-IsFlagged e _ (search get_environment_by_name other s.environments)
          (λ ids h. pure-IsFlagged _ false ([], some ids) (λ k. absurd (ground arith)))
    scope-IsFlagged (some ids) other e =
        >>=-IsFlagged e _ (await (get_targets_by_name_or_id s kinds)) (λ m h.
          >>=-IsFlagged _ _ (chosen_targets kind m ids) (λ chosen i.
            pure-IsFlagged _ chosen.0 (chosen.1, none)
              ((chosen_targets-IsFlagged kind m ids _).flagged chosen i)))

  send_cases :
      (e pending x y z : Bool) (r : CreateRequest) (a : Settled Created)
      → (pending ≡ true → e ≡ true)
      → s.create r ≡ a
      → EndsWell s e (do
        pending_exit pending x
        emit (requested r)
        pending_exit pending y
        created ← await a
        emit (warned_created created.name created.id)
        pending_exit pending z
        clean_exit 0)
  send_cases e false x y z r (resolved c) h i = record { ends = inl (r, c, refl, refl, i) }
  send_cases e false x y z r (rejected failure) h i = record { ends = inr (r, refl, i) }
  send_cases e true true y z r a h i = record { ends = inr (refl, ground (arith, h refl)) }
  send_cases e true false true z r a h i = record { ends = inr (refl, ground (arith, h refl)) }
  send_cases e true false false true r (resolved c) h i = record {
    ends = inr (refl, ground (arith, h refl));
  }
  send_cases e true false false false r (resolved c) h i = record {
    ends = inl (r, c, refl, refl, i);
  }
  send_cases e true false false z r (rejected failure) h i = record { ends = inr (r, refl, i) }

  send-EndsWell :
      (e pending : Bool) (r : CreateRequest)
      → (pending ≡ true → e ≡ true)
      → EndsWell s e (send s pending r)
  unfolding send
  send-EndsWell e pending r h =
      send_cases e pending s.exits_before_request s.exits_before_answer s.exits_before_end r
        (s.create r) h refl

  demand_target_user-IsQuiet :
      (e : Bool) (users : Option (List String)) (verbs : List String)
      → IsQuiet e (demand_target_user s users verbs)
  demand_target_user-IsQuiet e (some users) verbs = pure-IsQuiet e tt
  demand_target_user-IsQuiet e none verbs = fail_if-IsQuiet e (any (needs_target_user s) verbs)

  -- The handlers of clusters, targets and virtual targets, from the members on.
  members_on-EndsWell :
      (e : Bool) (kind : String) (kinds : List TargetKind) (args : BaseArgs)
      (one other : Option (List String))
      (request : List Subject × List Group
        → List PolicyTarget × Option (List String)
        → CreateRequest)
      → EndsWell s e (do
        m ← members s args
        chosen ← scope s kind kinds one other
        send s chosen.0 (request m chosen.1))
  members_on-EndsWell e kind kinds args one other request =
      >>=-EndsWell s e _ _ (members-IsQuiet e args) (λ m i.
        >>=-EndsWell s _ _ _ (scope-IsQuiet kind kinds one other _) (λ chosen j.
          send-EndsWell _ chosen.0 (request m chosen.1)
            ((scope-IsFlagged kind kinds one other _).flagged chosen j)))

  -- Each of the four handlers leaves the process with 0 only when the backend has accepted the one
  -- request that it has sent and the new policy is reported, with 1 only after it has logged an error,
  -- or throws, before a request or when its request is rejected.
  pub handlers-EndsWell :
      (args : BaseArgs) (one other target_users target_groups : Option (List String))
      (verbs : List String) (record_input : Bool)
      → EndsWell s false (create_cluster_policy_handler s args one other target_users target_groups)
        × EndsWell s false (create_tconnect_policy_handler s args one other target_users verbs)
        × EndsWell s false (create_proxy_policy_handler s args one other target_users)
        × EndsWell s false (create_recording_policy_handler s args record_input)
  unfolding create_cluster_policy_handler create_tconnect_policy_handler create_proxy_policy_handler
      create_recording_policy_handler
  handlers-EndsWell args one other target_users target_groups verbs record_input = (
    >>=-EndsWell s false _ _ (demand_either-IsQuiet one other)
        (λ u h. members_on-EndsWell _ _ _ args one other _),
    >>=-EndsWell s false _ _ (demand_either-IsQuiet one other) (λ u h.
        >>=-EndsWell s _ _ _ (demand_target_user-IsQuiet _ target_users verbs)
          (λ v i. members_on-EndsWell _ _ _ args one other _)),
    >>=-EndsWell s false _ _ (demand_either-IsQuiet one other)
        (λ u h. members_on-EndsWell _ _ _ args one other _),
    >>=-EndsWell s false _ _ (members-IsQuiet false args)
        (λ m h. send-EndsWell _ false _ (λ k. absurd (ground arith))),
  )
