-- ===== src/Cluster/Connection/Ready.antt =====
-- What a successful connection to Harvester means.
use cluster_api_provider_har.Common.{
  Bool, Bool-cases, List, String, false, inl, inr, refl, true, ◌≡◌, ◌⊎◌, ap, str_eq, sym, ◌∙◌,
  eq_iff, is_empty, not, ◌||◌,
}
use cluster_api_provider_har.Common.Flow.{Code, Flow, done, modify, next, pure, run, ◌>>=◌, ◌>>◌}
use cluster_api_provider_har.Api.Condition.{ConditionType, Conditions, Reason}
use cluster_api_provider_har.Api.Meta.{
  Error, Response, Result, error, failed, ok, value, api, message, wrapped,
}
use cluster_api_provider_har.Cluster.Connection.{
  Kubeconfigs, check_deployment, fail_connection, get_harvester_server_from_kubeconfig,
  is_harvester_available, set_connection, build_clients, connect, get_harvester_secret, read_server,
  reconcile_harvester_config, secret_response, set_server,
}
use cluster_api_provider_har.Cluster.Scope.{
  ClusterScope, has_condition, log_cluster_call, set_ready,
}
use cluster_api_provider_har.Common.Dict.{lookup}
use cluster_api_provider_har.Harvester.Cluster.{
  ClusterHistory, ClusterServers, get_deployment, get_identity_secret,
}
use cluster_api_provider_har.Harvester.Types.{Secret}
use cluster_api_provider_har.Pool.Store.{value_or_empty}

not_differs : (a b : Bool) → (a || not b) ≡ false → b ≡ true
not_differs true b h = cc
not_differs false true h = refl
not_differs false false h = cc

module _ (conditions : Conditions) (kubeconfigs : Kubeconfigs) (servers : ClusterServers) where
  abbrev pub says_connected : ClusterScope → Bool
  says_connected s = has_condition conditions ConditionType.harvester_connection_ready s

  -- The identity secret was answered.
  unfoldable pub HasSecret : ClusterScope → Secret → Type 0
  HasSecret s secret =
      servers.on_get_identity_secret s.calls s.hv_cluster.spec.identity_secret.namespace
        s.hv_cluster.spec.identity_secret.name
      ≡ ok secret

  has_secret :
      (s : ClusterScope) (secret : Secret)
      → servers.on_get_identity_secret s.calls s.hv_cluster.spec.identity_secret.namespace
          s.hv_cluster.spec.identity_secret.name
        ≡ ok secret
      → HasSecret s secret
  unfolding HasSecret
  has_secret s secret e = e

  -- The kubeconfig is that of the identity secret, names the server, and is accepted, and Harvester's deployment is available.
  abbrev pub IsConnected : ClusterScope → String → ClusterScope → Type 0
  IsConnected s kubeconfig s' =
      (secret : Secret) × HasSecret s secret
      × (kubeconfig ≡ value_or_empty (lookup "kubeconfig" secret.data_entries))
      × (get_harvester_server_from_kubeconfig kubeconfigs kubeconfig
          ≡ value s'.hv_cluster.spec.server)
      × (kubeconfigs.accepts kubeconfig ≡ true)
      × (kubeconfigs.builds_client kubeconfig ≡ true)
      × ((h : ClusterHistory) × (cs : List (String × String)) × (servers.on_get_deployment h
              "harvester-system" "harvester"
            ≡ ok cs)
          × (is_harvester_available cs ≡ true))

  abbrev pub ConnectionEnds : ClusterScope → Result String × ClusterScope → Type 0
  ConnectionEnds s out =
      ((e : Error) × (out.0 ≡ error e) × (says_connected out.1 ≡ false))
      ⊎ ((kubeconfig : String) × (out.0 ≡ value kubeconfig)
          × (says_connected out.1 ≡ true)
          × IsConnected s kubeconfig out.1)

  abbrev Ended : ClusterScope → Flow ClusterScope (Result String) (Result String) → Type 0
  Ended s f = ConnectionEnds s (elim f [ next r t ↦ (r, t) | done r t ↦ (r, t) ])

  set_connection_self :
      (b : Bool) (reason : Reason) (s : ClusterScope)
      → says_connected (set_connection conditions kubeconfigs servers b reason s) ≡ b
  set_connection_self b reason s =
      conditions.is_true-set_self
        (record { type = ConditionType.harvester_connection_ready; status = b; reason = reason })
        s.hv_cluster.status.conditions

  -- A failure, with the condition False.
  failed_connection :
      (s t : ClusterScope) (reason : Reason) (e : Error)
      → Ended s (done (error e) (set_connection conditions kubeconfigs servers false reason t))
  failed_connection s t reason e = inl (e, refl, set_connection_self false reason t)

  module _ (s : ClusterScope) (secret : Secret) where
    abbrev config : String
    config = value_or_empty (lookup "kubeconfig" secret.data_entries)

    -- The deployment, and the end.
    checked : Code ClusterScope (Result String) (Result String)
    checked =
        check_deployment conditions kubeconfigs servers
        >> (modify
              (set_connection conditions kubeconfigs servers true Reason.harvester_connection_ready)
            >> pure (value config))

    abbrev Given : ClusterScope → Type 0
    Given t =
        HasSecret s secret
        × (get_harvester_server_from_kubeconfig kubeconfigs config ≡ value t.hv_cluster.spec.server)

    checked-Ended :
        (t : ClusterScope)
        → Given t
        → kubeconfigs.accepts config ≡ true
        → kubeconfigs.builds_client config ≡ true
        → Ended s (checked t)
    unfolding checked check_deployment fail_connection
    checked-Ended t (found, server) accepts builds =
        go (servers.on_get_deployment t.calls "harvester-system" "harvester") refl
      where
        t' : ClusterScope
        t' = log_cluster_call (get_deployment "harvester-system" "harvester") t

        go :
            (r : Response (List (String × String)))
            → servers.on_get_deployment t.calls "harvester-system" "harvester" ≡ r
            → Ended s (checked t)
        go (failed e) f =
            rw (f, checked, check_deployment)
              (failed_connection s t' Reason.harvester_connection_failed (api e))
        go (ok cs) f = elim (Bool-cases (is_harvester_available cs)) [
          | inr down ↦
              rw (f, down, checked, check_deployment)
                (failed_connection s t' Reason.harvester_connection_failed
                  (message "harvester cluster is unavailable"))
          | inl up ↦
              rw (f, up, checked, check_deployment)
                (inr (
                  config,
                  refl,
                  set_connection_self true Reason.harvester_connection_ready t',
                  (secret, found, refl, server, accepts, builds, (t.calls, cs, f, up)),
                ))
        ]

    built : Code ClusterScope (Result String) (Result String)
    built = build_clients conditions kubeconfigs servers config >> checked

    built-Ended : (t : ClusterScope) → Given t → Ended s (built t)
    unfolding built build_clients fail_connection
    built-Ended t given = elim (Bool-cases (kubeconfigs.accepts config)) [
      | inr refused ↦
          rw (refused, built, build_clients)
            (failed_connection s t Reason.harvester_connection_failed
              (message "invalid REST config"))
      | inl accepted ↦ elim (Bool-cases (kubeconfigs.builds_client config)) [
        | inr refused ↦
            rw (accepted, refused, built, build_clients)
              (failed_connection s t Reason.harvester_connection_failed
                (message "no client for REST config"))
        | inl builds ↦
            rw (accepted, builds, built, build_clients) (checked-Ended t given accepted builds)
      ]
    ]

    set_server-server :
        (server : String) (t : ClusterScope)
        → (set_server conditions kubeconfigs servers server t).hv_cluster.spec.server ≡ server
    unfolding set_server
    set_server-server server t =
        elim (Bool-cases
          (is_empty t.hv_cluster.spec.server || not (str_eq t.hv_cluster.spec.server server))) [
            | inl differs ↦ rw (differs, set_server) refl
            | inr same ↦
                rw (same, set_server)
                  ((eq_iff t.hv_cluster.spec.server server).0 (not_differs _ _ same))
          ]

    connect-Ended :
        (t : ClusterScope)
        → HasSecret s secret
        → Ended s (connect conditions kubeconfigs servers secret t)
    unfolding connect read_server fail_connection built checked
    connect-Ended t found = go (get_harvester_server_from_kubeconfig kubeconfigs config) refl
      where
        go :
            (r : Result String)
            → get_harvester_server_from_kubeconfig kubeconfigs config ≡ r
            → Ended s (connect conditions kubeconfigs servers secret t)
        go (error e) f =
            rw (f, connect, read_server)
              (failed_connection s (set_ready false t) Reason.harvester_authentication_failed e)
        go (value server) f =
            rw (f, connect, read_server)
              (built-Ended (set_server conditions kubeconfigs servers server t)
                (found, f ∙ ap value (sym (set_server-server server t))))

  -- reconcileHarvesterConfig returns an error with the condition of the connection False, or, with the condition True, the kubeconfig of the identity secret, where this names the server that the specification now has, client-go accepts it and Harvester has answered a look at its deployment with conditions that say that it is available.
  pub reconcile_harvester_config_ends :
      (s : ClusterScope)
      → ConnectionEnds s (reconcile_harvester_config conditions kubeconfigs servers s)
  unfolding reconcile_harvester_config get_harvester_secret secret_response fail_connection
  reconcile_harvester_config_ends s =
      go
        (servers.on_get_identity_secret s.calls s.hv_cluster.spec.identity_secret.namespace
          s.hv_cluster.spec.identity_secret.name)
        refl
    where
      t : ClusterScope
      t =
          log_cluster_call
            (get_identity_secret s.hv_cluster.spec.identity_secret.namespace
              s.hv_cluster.spec.identity_secret.name)
            (set_connection conditions kubeconfigs servers false
              Reason.harvester_connection_in_progress s)

      go :
          (r : Response Secret)
          → servers.on_get_identity_secret s.calls s.hv_cluster.spec.identity_secret.namespace
              s.hv_cluster.spec.identity_secret.name
            ≡ r
          → ConnectionEnds s (
              run
                (secret_response conditions kubeconfigs servers r
                  >>= connect conditions kubeconfigs servers)
                t)
      go (failed e) f =
          failed_connection s (set_ready false t) Reason.harvester_authentication_failed
            (wrapped "unable to find the IdentitySecret for Harvester" (api e))
      go (ok secret) f = connect-Ended s secret t (has_secret s secret f)
