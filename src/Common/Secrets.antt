-- ===== src/Common/Secrets.antt =====
-- Reading a Kubernetes secret: common/utils.go. The Kubernetes client and the library encoding/base64
-- are parameters; the state of the cluster is passed on.
use zk_wsp.Prelude.{Option, none, some, List, Bytes, codes, []}
use zk_wsp.Prelude.Dict.{lookup}
use zk_wsp.Result.{Result, value, ◌>>=◌, or_error}

-- `Data` is a Go map of byte strings, and may be nil.
pub record Secret : Type 0 where
  pub name : Bytes
  pub data_ : Option (List (Bytes × Bytes))

-- The calls of client-go, each of which answers `none` on an error; `get` and `update` are those of
-- the secrets of a namespace.
pub record K8sLib : Type 1 where
  pub RestConfig : Type 0
  pub Clientset : Type 0
  pub Cluster : Type 0
  pub in_cluster_config : Option RestConfig
  pub getenv : Bytes → Bytes
  pub build_config_from_flags : Bytes → Bytes → Option RestConfig
  pub new_for_config : RestConfig → Option Clientset
  pub get : Clientset → Bytes → Bytes → Cluster → Option Secret
  pub update : Clientset → Bytes → Secret → Cluster → Option Cluster
  pub encode_to_string : Bytes → Bytes

pub data SecretError : Type 0 where
  no_config no_clientset no_secret no_value not_updated : SecretError

abbrev pub entry : Bytes → Option (List (Bytes × Bytes)) → Option Bytes
entry key none = none
entry key (some entries) = lookup key entries

module _ (lib : K8sLib) where
  abbrev config_or : Option lib.RestConfig → Result SecretError lib.RestConfig
  config_or (some c) = value c
  config_or none =
      or_error (lib.build_config_from_flags [] (lib.getenv (codes "KUBECONFIG"))) no_config

  -- `GetK8sClient`
  unfoldable pub get_k8s_client : Result SecretError lib.Clientset
  get_k8s_client =
      config_or lib.in_cluster_config >>= λ c. or_error (lib.new_for_config c) no_clientset

  -- `GetSecretValue`
  unfoldable pub get_secret_value : lib.Cluster → Bytes → Bytes → Bytes → Result SecretError Bytes
  get_secret_value k namespace secret_name data_key = do
    clientset ← get_k8s_client
    secret ← or_error (lib.get clientset namespace secret_name k) no_secret
    or_error (entry data_key secret.data_) no_value
