-- ===== src/Tests/Secrets.antt =====
-- Secrets of a concrete cluster, where a namespace is not looked at.
use zk_wsp.Prelude.{◌≡◌, refl, Option, some, none, List, [], ◌∷◌, ◌++◌, Bytes, codes, same_refl}
use zk_wsp.Prelude.Dict.{lookup, insert, lookup-insert}
use zk_wsp.Result.{value}
use zk_wsp.Common.Secrets.{K8sLib, Secret, get_k8s_client}
use zk_wsp.Client.Secrets.{get_secret_value, update_secret_value, put_all}
use zk_wsp.Client.Secrets.Updates.{IsCluster, get-update}

abbrev pub Data : Type 0
Data = Option (List (Bytes × Bytes))

abbrev pub found : Bytes → Option Data → Option Secret
found name none = none
found name (some d) = some (record { name = name; data_ = d })

abbrev pub k8s : K8sLib
k8s = record {
  RestConfig = Unit;
  Clientset = Unit;
  Cluster = List (Bytes × Data);
  in_cluster_config = none;
  getenv = λ _. codes "/kube";
  build_config_from_flags = λ _ _. some tt;
  new_for_config = λ _. some tt;
  get = λ _ _ name k. found name (lookup name k);
  update = λ _ _ secret k. some (insert secret.name secret.data_ k);
  encode_to_string = λ b. b ++ codes "==";
}

found-name :
    (name : Bytes) (o : Option Data) (secret : Secret)
    → found name o ≡ some secret
    → secret.name ≡ name
found-name name none secret h = cc
found-name name (some d) secret h = cc

found-inserted :
    (secret : Secret) (k k' : List (Bytes × Data))
    → insert secret.name secret.data_ k ≡ k'
    → found secret.name (lookup secret.name k') ≡ some secret
found-inserted secret k k' e =
    rw (← e, lookup-insert k secret.name secret.name secret.data_, same_refl secret.name) refl

k8s-IsCluster : IsCluster k8s
k8s-IsCluster = record {
  update-get = λ c ns secret k k' e. found-inserted secret k k' (cc);
  get-name = λ c ns name secret k h. found-name name (lookup name k) secret h;
}

abbrev pub before : List (Bytes × Data)
before = (codes "zk", some ((codes "token", codes "old") ∷ (codes "key", codes "k") ∷ [])) ∷ []

abbrev after : List (Bytes × Data)
after = (codes "zk", some ((codes "token", codes "new==") ∷ (codes "key", codes "k") ∷ [])) ∷ []

update_example :
    get_secret_value k8s after (codes "ns") (codes "zk") (codes "token") ≡ value (codes "new==")
unfolding lookup insert update_secret_value get_k8s_client put_all
update_example =
    get-update k8s k8s-IsCluster before after (codes "ns") (codes "zk") (codes "token")
      ((codes "token", codes "new") ∷ []) refl
