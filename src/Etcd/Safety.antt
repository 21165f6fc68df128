-- ===== src/Etcd/Safety.antt =====
-- Which member is removed, and through which pod.
use cluster_api_provider_har.Common.{
  Bool-cases, List, Option, Option-cases, String, [], arith, eq_iff, inl, inr, none, refl, some,
  starts_with, str_append, true, ℕ, ◌∷◌, ◌≡◌, ◌≢◌, ◌⊎◌,
}
use cluster_api_provider_har.Api.Meta.{Response, failed, ok}
use cluster_api_provider_har.Etcd.{
  ClientGo, find_healthy_etcd_pod, find_member, first_healthy, is_pod_ready, list_and_remove,
  list_etcd, remove_etcd_member, remove_through,
}
use cluster_api_provider_har.Harvester.Types.{EtcdMember, History, Pod, Servers, exec_member_remove}

-- The removals among the calls.
abbrev pub removals : History → List (Pod × ℕ)
removals [] = []
removals (exec_member_remove pod id ∷ h) = (pod, id) ∷ removals h
removals (_ ∷ h) = removals h

first_healthy_sound :
    (deleted : String) (pods : List Pod) (pod : Pod)
    → first_healthy deleted pods ≡ some pod
    → (pod.node_name ≢ deleted) × (is_pod_ready pod ≡ true)
unfolding first_healthy
first_healthy_sound deleted [] pod h = cc
first_healthy_sound deleted (p ∷ ps) pod h =
    ground (arith, eq_iff p.node_name deleted, first_healthy_sound deleted ps pod)

find_member_sound :
    (node : String) (members : List EtcdMember) (m : EtcdMember)
    → find_member node members ≡ some m
    → (starts_with m.name (str_append node "-") ≡ true) ⊎ (m.name ≡ node)
unfolding find_member
find_member_sound node [] m h = cc
find_member_sound node (x ∷ xs) m h =
    ground (arith, eq_iff x.name node, find_member_sound node xs m)

module _ (servers : Servers) where
  -- The one removal that was made.
  abbrev pub Removes : String → History → History → Type 0
  Removes deleted h h' =
      (pod : Pod) × (m : EtcdMember) × (removals h' ≡ (pod, m.id) ∷ removals h)
      × (pod.node_name ≢ deleted)
      × (is_pod_ready pod ≡ true)
      × ((members : List EtcdMember) × (k : History) × (servers.on_exec_member_list k pod
            ≡ ok members)
          × (find_member deleted members ≡ some m))
      × ((starts_with m.name (str_append deleted "-") ≡ true) ⊎ (m.name ≡ deleted))

  list_and_remove_safe :
      (deleted : String) (pod : Pod) (h : History)
      → pod.node_name ≢ deleted
      → is_pod_ready pod ≡ true
      → (removals (list_and_remove servers deleted pod h) ≡ removals h)
        ⊎ Removes deleted h (list_and_remove servers deleted pod h)
  unfolding list_and_remove
  list_and_remove_safe deleted pod h elsewhere ready = go (servers.on_exec_member_list h pod) refl
    where
      go :
          (r : Response (List EtcdMember))
          → servers.on_exec_member_list h pod ≡ r
          → (removals (list_and_remove servers deleted pod h) ≡ removals h)
            ⊎ Removes deleted h (list_and_remove servers deleted pod h)
      go (failed e) p = rw (p, list_and_remove) (inl refl)
      go (ok members) p = elim (Option-cases (find_member deleted members)) [
        | inl nobody ↦ rw (p, list_and_remove) (rw (nobody, remove_through) (inl refl))
        | inr (m, found) ↦
            rw (p, list_and_remove)
              (rw (found, remove_through)
                (inr (
                  pod,
                  m,
                  refl,
                  elsewhere,
                  ready,
                  (members, h, p, found),
                  find_member_sound deleted members m found,
                )))
      ]

  removals-list_etcd : (h : History) → removals (list_etcd servers h).1 ≡ removals h
  unfolding list_etcd
  removals-list_etcd h = ground arith

  find_healthy_etcd_pod_sound :
      (deleted : String) (h : History) (pod : Pod)
      → (find_healthy_etcd_pod servers deleted h).0 ≡ some pod
      → (pod.node_name ≢ deleted) × (is_pod_ready pod ≡ true)
  unfolding find_healthy_etcd_pod
  find_healthy_etcd_pod_sound deleted h pod e = go ((list_etcd servers h).0) e
    where
      go :
          (pods : Option (List Pod))
          → (let o : Option Pod = elim pods [ none ↦ none | some ps ↦ first_healthy deleted ps ] in
              o ≡ some pod)
          → (pod.node_name ≢ deleted) × (is_pod_ready pod ≡ true)
      go none p = cc
      go (some ps) p = first_healthy_sound deleted ps pod p

  -- The removal of one member at most is requested: through a pod that is ready and stands on another node, and it
  -- is the first member in that pod's list that is named as the deleted node, or has a name that
  -- begins with the node's name and a dash.
  pub remove_etcd_member_safe :
      (client_go : ClientGo) (config deleted : String) (h : History)
      → (removals (remove_etcd_member servers client_go config deleted h) ≡ removals h)
        ⊎ Removes deleted h (remove_etcd_member servers client_go config deleted h)
  unfolding remove_etcd_member
  remove_etcd_member_safe client_go config deleted h =
      elim (Bool-cases (client_go.builds_client config)) [
        | inr unbuilt ↦ rw (unbuilt, remove_etcd_member) (inl refl)
        | inl built ↦
            rw (built, remove_etcd_member) (go (find_healthy_etcd_pod servers deleted h).0 refl)
      ]
    where
      same : removals (find_healthy_etcd_pod servers deleted h).1 ≡ removals h
      same = unfold find_healthy_etcd_pod in removals-list_etcd h

      out : Option Pod → History
      out found =
          let h' = (find_healthy_etcd_pod servers deleted h).1 in
          elim found [ none ↦ h' | some pod ↦ list_and_remove servers deleted pod h' ]

      go :
          (found : Option Pod)
          → (find_healthy_etcd_pod servers deleted h).0 ≡ found
          → (removals (out found) ≡ removals h) ⊎ Removes deleted h (out found)
      go none e = inl same
      go (some pod) e =
          let (elsewhere, ready) = find_healthy_etcd_pod_sound deleted h pod e in
          rw (← same) (
            list_and_remove_safe deleted pod (find_healthy_etcd_pod servers deleted h).1 elsewhere
              ready)
