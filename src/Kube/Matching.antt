-- ===== src/Kube/Matching.antt =====
-- `findMatchingKubeContext`: the context of the user's kube config that leads to a kube daemon.
use zli.Prelude.{
  ℕ, String, string_key, ◌==◌, Bool, true, false, Option, none, some, List, [], ◌∷◌, ◌++◌, All,
  Bool-cases, inl, inr, ◌≡◌, refl, sym, ◌∙◌, if◌then◌else◌, ap,
}
use zli.Dict.Defs.{Dict, get}
use zli.Dict.Laws.{==_refl, ==-to-≡}
use zli.Effect.{Settled, resolved, rejected, type_error}
use zli.Kube.Config.{Cluster, Context, ConfigService, is_kube_context_bastion_zero}
use zli.Kube.Filter.{Runtime, get_port_from_cluster_server}

module _ (r : Runtime) (s : ConfigService) (clusters : Dict String Cluster)
    (local_port : Option ℕ) where
  -- `port === localPort.toString()`, once the port of the cluster is known.
  abbrev pub is_local_port : Option ℕ → Settled String → Settled Bool
  is_local_port port (rejected failure) = rejected failure
  is_local_port none (resolved text) = rejected type_error
  is_local_port (some n) (resolved text) = resolved (text == r.number_to_string n)

  abbrev pub is_at_local_port : Option Cluster → Settled Bool
  is_at_local_port none = resolved false
  is_at_local_port (some cluster) =
      is_local_port local_port (get_port_from_cluster_server r cluster)

  unfoldable pub is_matching : Context → Settled Bool
  is_matching context =
      if is_kube_context_bastion_zero s context
      then is_at_local_port (get context.cluster clusters)
      else resolved false

  abbrev pub found_or : Context → Settled Bool → Settled (Option Context) → Settled (Option Context)
  found_or context (rejected failure) later = rejected failure
  found_or context (resolved true) later = resolved (some context)
  found_or context (resolved false) later = later

  unfoldable pub find_matching_kube_context : List Context → Settled (Option Context)
  find_matching_kube_context [] = resolved none
  find_matching_kube_context (context ∷ rest) =
      let later = find_matching_kube_context rest in found_or context (is_matching context) later

  -- A context that the client manages, of a cluster whose server has the local port of the daemon.
  abbrev pub LeadsToDaemon : Context → Type 0
  LeadsToDaemon context =
      (is_kube_context_bastion_zero s context ≡ true)
      × (cluster : Cluster) × (get context.cluster clusters ≡ some cluster)
      × (n : ℕ) × (local_port ≡ some n)
      × (get_port_from_cluster_server r cluster ≡ resolved (r.number_to_string n))

  abbrev pub IsFirst : List Context → Option Context → Type 0
  IsFirst contexts none = All (λ (c : Context). ¬ LeadsToDaemon c) contexts
  IsFirst contexts (some context) =
      (before : List Context) × (after : List Context) × (contexts ≡ before ++ context ∷ after)
      × All (λ (c : Context). ¬ LeadsToDaemon c) before
      × LeadsToDaemon context

  leads_of_port :
      (port : Option ℕ) (text : Settled String)
      → is_local_port port text ≡ resolved true
      → (n : ℕ) × (port ≡ some n) × (text ≡ resolved (r.number_to_string n))
  leads_of_port port (rejected failure) e = absurd (cc)
  leads_of_port none (resolved text) e = absurd (cc)
  leads_of_port (some n) (resolved text) e =
      let same : (text == r.number_to_string n) ≡ true = cc in (n, refl, ap resolved (==-to-≡ same))

  leads_of_cluster :
      (found : Option Cluster)
      → is_at_local_port found ≡ resolved true
      → (cluster : Cluster) × (found ≡ some cluster)
        × (n : ℕ) × (local_port ≡ some n)
        × (get_port_from_cluster_server r cluster ≡ resolved (r.number_to_string n))
  leads_of_cluster none e = absurd (cc)
  leads_of_cluster (some cluster) e =
      let (n, stored, served) =
        leads_of_port local_port (get_port_from_cluster_server r cluster) e in
      (cluster, refl, n, stored, served)

  matching_of_managed :
      (context : Context)
      → is_kube_context_bastion_zero s context ≡ true
      → is_matching context ≡ is_at_local_port (get context.cluster clusters)
  unfolding is_matching
  matching_of_managed context e = rw e refl

  matching_of_other :
      (context : Context)
      → is_kube_context_bastion_zero s context ≡ false
      → is_matching context ≡ resolved false
  unfolding is_matching
  matching_of_other context e = rw e refl

  leads_if_matching :
      (context : Context) → is_matching context ≡ resolved true → LeadsToDaemon context
  leads_if_matching context e = elim (Bool-cases (is_kube_context_bastion_zero s context)) [
    | inl managed ↦
        let (cluster, found, n, stored, served) =
          leads_of_cluster (get context.cluster clusters)
            (sym (matching_of_managed context managed) ∙ e) in
        (managed, cluster, found, n, stored, served)
    | inr other ↦
        let g : resolved true ≡ resolved false = sym e ∙ matching_of_other context other in
        absurd (cc)
  ]

  matching_if_leads :
      (context : Context) → LeadsToDaemon context → is_matching context ≡ resolved true
  unfolding is_matching
  matching_if_leads context (managed, cluster, g, n, p, e) =
      rw (managed, g, p, e, ==_refl (r.number_to_string n)) refl

  no_lead : (context : Context) → is_matching context ≡ resolved false → ¬ LeadsToDaemon context
  no_lead context e leads =
      let g : resolved true ≡ resolved false = sym (matching_if_leads context leads) ∙ e in
      absurd (cc)

  IsFirst-of_rest :
      (context : Context) (rest : List Context) (result : Option Context)
      → ¬ LeadsToDaemon context
      → IsFirst rest result
      → IsFirst (context ∷ rest) result
  IsFirst-of_rest context rest none no_leads first = (no_leads, first)
  IsFirst-of_rest context rest (some c) no_leads (before, after, e, none_before, leads) =
      (context ∷ before, after, ap (λ l. context ∷ l) e, (no_leads, none_before), leads)

  IsFirst-found :
      (context : Context) (rest : List Context) (result : Option Context)
      → some context ≡ result
      → LeadsToDaemon context
      → IsFirst (context ∷ rest) result
  IsFirst-found context rest result e leads = rw (sym e) ([], rest, refl, tt, leads)

  IsFirst-of_found_or :
      (context : Context) (rest : List Context) (result : Option Context)
      (later : Settled (Option Context)) (m : Settled Bool)
      → (later ≡ resolved result → IsFirst rest result)
      → is_matching context ≡ m
      → found_or context m later ≡ resolved result
      → IsFirst (context ∷ rest) result
  IsFirst-of_found_or context rest result later (rejected failure) first e h = absurd (cc)
  IsFirst-of_found_or context rest result later (resolved true) first e h =
      IsFirst-found context rest result (cc) (leads_if_matching context e)
  IsFirst-of_found_or context rest result later (resolved false) first e h =
      IsFirst-of_rest context rest result (no_lead context e) (first h)

  -- If the search for a matching context returns, it has the first context of the list that the
  -- client manages and whose cluster is at the local port of the daemon, or none when there is none.
  find_matching_kube_context_lem :
      (contexts : List Context) (result : Option Context)
      → find_matching_kube_context contexts ≡ resolved result
      → IsFirst contexts result
  unfolding find_matching_kube_context
  find_matching_kube_context_lem [] none e = tt
  find_matching_kube_context_lem [] (some context) e = absurd (cc)
  find_matching_kube_context_lem (context ∷ rest) result e =
      IsFirst-of_found_or context rest result (find_matching_kube_context rest)
        (is_matching context) (find_matching_kube_context_lem rest result) refl e
