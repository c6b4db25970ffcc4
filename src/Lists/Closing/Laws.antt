-- ===== src/Lists/Closing/Laws.antt =====
-- Every request to close is made, whatever becomes of the others.
use zli.Prelude.{
  Bool, true, false, ℕ, Option, All, String, none, some, List, [], ◌∷◌, ◌++◌, map, ◌≡◌, ◌↔◌, refl,
  arith, ◌∙◌, append-nil,
}
use zli.Effect.{
  clean_exit, Failure, returned, exited, threw, Settled, resolved, rejected, ◌>>◌, ◌>>=◌,
}
use zli.Shell.{SpaceSummary, get_cli_space}
use Prim.Native.String.{◌++◌ as text_append}
use zli.Lists.Closing.{
  type_name, await, space_closed, space_created, db, rdp, sqlserver, kube, handle_shell,
  close_shell_connections, close_space_of, unless_missing, ConnectionType, ClosingEvent,
  close_requested, Closing, emit_all, ClosingBackend, reasons, unless_failed, close_connections,
  close_kind, all_kinds, settled, events_of_kinds, close_all_kinds, close_connection_handler,
}

-- No result is a rejection.
abbrev pub AreResolved : List (Settled (Unit {0})) → Type 0
AreResolved [] = Unit
AreResolved (resolved done ∷ results) = AreResolved results
AreResolved (rejected failure ∷ results) = ⊥

reasons_of_resolved :
    (results : List (Settled (Unit {0}))) → AreResolved results → reasons results ≡ []
unfolding reasons
reasons_of_resolved [] h = refl
reasons_of_resolved (resolved done ∷ results) h = reasons_of_resolved results h
reasons_of_resolved (rejected failure ∷ results) h = absurd h

resolved_of_reasons :
    (results : List (Settled (Unit {0}))) → reasons results ≡ [] → AreResolved results
unfolding reasons
resolved_of_reasons [] h = tt
resolved_of_reasons (resolved done ∷ results) h = resolved_of_reasons results h
resolved_of_reasons (rejected failure ∷ results) h = ground arith

abbrev exit_zero : Closing (Unit {0})
exit_zero = clean_exit 0

abbrev pub all_events : List (Closing (Unit {0})) → List ClosingEvent
all_events [] = []
all_events (run ∷ runs) = run.0 ++ all_events runs

record NeverExits {A : Type 0} (run : Closing A) : Type 0 where
  never : (code : ℕ) → run.1 ≡ exited code → ⊥

pure-NeverExits : {A : Type 0} (es : List ClosingEvent) (a : A) → NeverExits (es, returned a)
pure-NeverExits es a = record { never = λ code h. absurd (ground arith) }

await-NeverExits : {A : Type 0} (r : Settled A) → NeverExits (await r)
await-NeverExits (resolved a) = record { never = λ code h. absurd (ground arith) }
await-NeverExits (rejected failure) = record { never = λ code h. absurd (ground arith) }

bind-NeverExits :
    {A B : Type 0} (m : Closing A) (f : A → Closing B)
    → NeverExits m
    → ((a : A) → NeverExits (f a))
    → NeverExits (m >>= f)
bind-NeverExits (es, returned a) f h k = record { never = λ code e. (k a).never code e }
bind-NeverExits (es, exited c) f h k = record { never = λ code e. h.never c refl }
bind-NeverExits (es, threw failure) f h k = record { never = λ code e. absurd (ground arith) }

-- Tasks that never leave the process are resolved exactly if they return.
returned_lem :
    (b : ClosingBackend) (runs : List (Closing (Unit {0})))
    → All NeverExits runs
    → AreResolved (map (λ (run : Closing (Unit {0})). settled b run.1) runs)
      ↔ All (λ (run : Closing (Unit {0})). run.1 ≡ returned tt) runs
returned_lem b [] h = ((λ k. tt), (λ k. tt))
returned_lem b ((es, returned done) ∷ runs) (h, hs) =
    let (f, g) = returned_lem b runs hs in ((λ k. (refl, f k)), (λ k. g k.1))
returned_lem b ((es, exited code) ∷ runs) (h, hs) = absurd (h.never code refl)
returned_lem b ((es, threw failure) ∷ runs) (h, hs) =
    ((λ k. absurd k), (λ k. absurd (ground arith)))

module _ (b : ClosingBackend) where
  -- After the requests, the reasons of those that failed decide how a run ends.
  ended_lem :
      (prefix : String) (es : List ClosingEvent) (failures : List Failure)
      → ((emit_all es >> unless_failed b prefix failures).0 ≡ es)
        × ((emit_all es >> unless_failed b prefix failures).1 ≡ returned tt ↔ (failures ≡ []))
  ended_lem prefix es [] = (append-nil es, ((λ h. refl), (λ h. refl)))
  ended_lem prefix es (f ∷ failures) =
      (append-nil es, ((λ h. absurd (ground arith)), (λ h. absurd (ground arith))))

  exited_lem :
      (prefix : String) (es : List ClosingEvent) (failures : List Failure)
      → (((emit_all es >> unless_failed b prefix failures) >> exit_zero).0 ≡ es)
        × (((emit_all es >> unless_failed b prefix failures) >> exit_zero).1 ≡ exited 0
            ↔ (failures ≡ []))
  exited_lem prefix es [] = (append-nil (es ++ []) ∙ append-nil es, ((λ h. refl), (λ h. refl)))
  exited_lem prefix es (f ∷ failures) =
      (append-nil es, ((λ h. absurd (ground arith)), (λ h. absurd (ground arith))))

  -- When the open connections of a type are listed, a request to close is made for each of them in
  -- order, and the function returns, instead of throwing, exactly if all requests succeed.
  pub close_connections_lem :
      (kind : ConnectionType) (ids : List String)
      → b.list_open_connections kind ≡ resolved ids
      → ((close_connections b kind).0 ≡ map close_requested ids)
        × ((close_connections b kind).1 ≡ returned tt ↔ AreResolved (map b.close_connection ids))
  unfolding close_connections
  close_connections_lem kind ids e = rw e (
      let results = map b.close_connection ids in
      let (events, ends) = ended_lem _ (map close_requested ids) (reasons results) in
      (
        events,
        (
          (λ h. resolved_of_reasons results (ends.0 h)),
          (λ h. ends.1 (reasons_of_resolved results h)),
        ),
      ))

  -- What closes the connections of each type, the shells first.
  abbrev pub closings : List (Closing (Unit {0}))
  closings =
      handle_shell b
      ∷ close_connections b db
      ∷ close_connections b rdp
      ∷ close_connections b sqlserver
      ∷ close_connections b kube
      ∷ []

  unless_failed-NeverExits :
      (prefix : String) (failures : List Failure) → NeverExits (unless_failed b prefix failures)
  unless_failed-NeverExits prefix [] = pure-NeverExits [] tt
  unless_failed-NeverExits prefix (f ∷ failures) = record {
    never = λ code h. absurd (ground arith);
  }

  close_connections-NeverExits : (kind : ConnectionType) → NeverExits (close_connections b kind)
  unfolding close_connections
  close_connections-NeverExits kind =
      bind-NeverExits _ _ (await-NeverExits (b.list_open_connections kind)) (λ ids.
        bind-NeverExits (emit_all (map close_requested ids)) _ (pure-NeverExits _ tt) (λ u.
          unless_failed-NeverExits
            (text_append "Failed closing at least one "
              (text_append (type_name kind) " connection: "))
            (reasons (map b.close_connection ids))))

  close_space_of-NeverExits : (o : Option SpaceSummary) → NeverExits (close_space_of b o)
  close_space_of-NeverExits none = pure-NeverExits [] false
  close_space_of-NeverExits (some space) =
      bind-NeverExits _ _ (pure-NeverExits (space_closed space.id ∷ []) tt) (λ u.
        bind-NeverExits _ _ (await-NeverExits (b.close_space space.id)) (λ v.
          bind-NeverExits _ _ (pure-NeverExits (space_created "cli-space" ∷ []) tt) (λ w.
            bind-NeverExits _ _ (await-NeverExits (b.create_space "cli-space"))
              (λ x. pure-NeverExits [] true))))

  unless_missing-NeverExits : (exists : Bool) → NeverExits (unless_missing b exists)
  unless_missing-NeverExits true = pure-NeverExits [] tt
  unless_missing-NeverExits false = record { never = λ code h. absurd (ground arith) }

  handle_shell-NeverExits : NeverExits (handle_shell b)
  unfolding handle_shell close_shell_connections
  handle_shell-NeverExits =
      bind-NeverExits _ (unless_missing b)
        (bind-NeverExits _ _ (await-NeverExits b.list_spaces)
          (λ spaces. close_space_of-NeverExits (get_cli_space spaces).0))
        unless_missing-NeverExits

  closings-NeverExit : All NeverExits closings
  closings-NeverExit = (
    handle_shell-NeverExits,
    (
      close_connections-NeverExits db,
      (
        close_connections-NeverExits rdp,
        (close_connections-NeverExits sqlserver, (close_connections-NeverExits kube, tt)),
      ),
    ),
  )

  -- Closing the connections of all types closes the shells and the connections of databases, RDP, SQL
  -- servers and clusters, each as closing its type alone does and whether or not another fails, and
  -- the handler exits with 0 exactly if all five return.
  pub close_connection_handler_lem :
      (connection_id : String)
      → ((close_connection_handler b (some none) connection_id).0 ≡ all_events closings)
        × ((close_connection_handler b (some none) connection_id).1 ≡ exited 0
            ↔ All (λ (run : Closing (Unit {0})). run.1 ≡ returned tt) closings)
  unfolding close_connection_handler close_all_kinds events_of_kinds
  close_connection_handler_lem connection_id =
      let results = map (λ kind. settled b (close_kind b kind).1) (all_kinds b) in
      let (events, ends) =
        exited_lem "Failed closing at least one connection: " (events_of_kinds b (all_kinds b))
          (reasons results) in
      let (all_return, all_resolved) = returned_lem b closings closings-NeverExit in
      (
        events,
        (
          (λ h. all_return (resolved_of_reasons results (ends.0 h))),
          (λ h. ends.1 (reasons_of_resolved results (all_resolved h))),
        ),
      )
