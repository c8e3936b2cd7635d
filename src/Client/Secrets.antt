-- ===== src/Client/Secrets.antt =====
-- client/k8sutils.go: the client's copies of the functions on secrets, and `UpdateSecretValue`.
pub mod Updates
use zk_wsp.Prelude.{Option, none, some, List, [], ◌∷◌, Bytes}
use zk_wsp.Prelude.Dict.{insert}
use zk_wsp.Outcome.{Outcome, ok, panic, ◌>>=◌ as ◌>>>=◌}
use zk_wsp.Result.{Result, value, error, or_error}
use zk_wsp.Common.Secrets
use zk_wsp.Common.Secrets.{K8sLib, Secret, SecretError, no_secret, not_updated}

module _ (lib : K8sLib) where
  abbrev pub get_k8s_client : Result SecretError lib.Clientset
  get_k8s_client = Secrets.get_k8s_client lib

  abbrev pub get_secret_value : lib.Cluster → Bytes → Bytes → Bytes → Result SecretError Bytes
  get_secret_value = Secrets.get_secret_value lib

  abbrev Data : Type 0
  Data = Option (List (Bytes × Bytes))

  -- `secret.Data[key] = …`, which panics on a nil map.
  abbrev put : Bytes → Bytes → Data → Outcome Data
  put key new none = panic
  put key new (some entries) = ok (some (insert key (lib.encode_to_string new) entries))

  -- The loop over the new data, which are listed in the reverse order of the iteration.
  unfoldable pub put_all : List (Bytes × Bytes) → Data → Outcome Data
  put_all [] d = ok d
  put_all ((key, new) ∷ rest) d = put_all rest d >>>= put key new

  abbrev updated :
      lib.Clientset → Bytes → lib.Cluster → Secret → Data → Result SecretError lib.Cluster
  updated clientset namespace k secret d =
      or_error (lib.update clientset namespace (record secret { data_ = d }) k) not_updated

  abbrev update_secret :
      lib.Cluster
      → Bytes
      → List (Bytes × Bytes)
      → lib.Clientset
      → Result SecretError Secret
      → Outcome (Result SecretError lib.Cluster)
  update_secret k namespace new_data clientset (error e) = ok (error e)
  update_secret k namespace new_data clientset (value secret) =
      put_all new_data secret.data_ >>>= λ d. ok (updated clientset namespace k secret d)

  abbrev update_with :
      lib.Cluster
      → Bytes
      → Bytes
      → List (Bytes × Bytes)
      → Result SecretError lib.Clientset
      → Outcome (Result SecretError lib.Cluster)
  update_with k namespace secret_name new_data (error e) = ok (error e)
  update_with k namespace secret_name new_data (value clientset) =
      update_secret k namespace new_data clientset
        (or_error (lib.get clientset namespace secret_name k) no_secret)

  -- `UpdateSecretValue`
  unfoldable pub update_secret_value :
      lib.Cluster → Bytes → Bytes → List (Bytes × Bytes) → Outcome (Result SecretError lib.Cluster)
  update_secret_value k namespace secret_name new_data =
      update_with k namespace secret_name new_data get_k8s_client
