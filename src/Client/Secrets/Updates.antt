-- ===== src/Client/Secrets/Updates.antt =====
-- What `GetSecretValue` reads behind `UpdateSecretValue`: client/k8sutils.go.
use zk_wsp.Prelude.{◌≡◌, refl, some, none, Option, List, [], ◌∷◌, Bytes, arith, subst}
use zk_wsp.Prelude.Dict.{lookup, lookup-insert}
use zk_wsp.Outcome.{blocked, ◌>>=◌, Outcome, ok, panic, Returns, Returns->>=, of_Returns}
use zk_wsp.Result.{Result, value, error, or_error, ◌>>=◌ as ◌>>>=◌}
use zk_wsp.Common.Secrets
use zk_wsp.Common.Secrets.{no_secret, not_updated, K8sLib, Secret, SecretError, entry, no_value}
use zk_wsp.Client.Secrets.{
  get_k8s_client, get_secret_value, put_all, put, update_secret_value, update_with, update_secret,
  updated, Data, no_secret,
}

-- What the Kubernetes API documents: a secret that was updated is the one that a read by its name
-- finds, and a secret is found under its name.
pub record IsCluster (lib : K8sLib) : Type 0 where
  pub update-get :
      (c : lib.Clientset) (namespace : Bytes) (secret : Secret) (k k' : lib.Cluster)
      → lib.update c namespace secret k ≡ some k'
      → lib.get c namespace secret.name k' ≡ some secret
  pub get-name :
      (c : lib.Clientset) (namespace name : Bytes) (secret : Secret) (k : lib.Cluster)
      → lib.get c namespace name k ≡ some secret
      → secret.name ≡ name

or_error-value :
    {A : Type 0} (e : SecretError) {a : A} (o : Option A) → or_error o e ≡ value a → o ≡ some a
or_error-value e none h = cc
or_error-value e (some b) h = cc

bind-ok :
    {A B : Type 0} {b : B} (m : Outcome A) (f : A → Outcome B)
    → (m >>= f) ≡ ok b
    → (a : A) × (m ≡ ok a) × (f a ≡ ok b)
bind-ok (ok a) f h = (a, refl, h)
bind-ok blocked f h = cc
bind-ok panic f h = cc

module _ (lib : K8sLib) where
  -- An entry of the new data is in the map, encoded; any other key has the value it had.
  abbrev new_entry : Option Bytes → Option Bytes → Option Bytes
  new_entry none old = old
  new_entry (some new) old = some (lib.encode_to_string new)

  put_all-entry :
      (key : Bytes) (new_data : List (Bytes × Bytes)) (d : Data lib)
      → Returns
          (λ d'. entry key d' ≡ new_entry (lookup key new_data) (entry key d))
          (put_all lib new_data d)
  unfolding put_all lookup
  put_all-entry key [] d = refl
  put_all-entry key ((j, new) ∷ rest) d =
      Returns->>= (λ d'. entry key d' ≡ new_entry (lookup key ((j, new) ∷ rest)) (entry key d))
        (put_all lib rest d) _
        λ d' e. put-entry d' (of_Returns _ (put_all lib rest d) (put_all-entry key rest d) e)
    where
      put-entry :
          (d' : Data lib)
          → entry key d' ≡ new_entry (lookup key rest) (entry key d)
          → Returns
              (λ x. entry key x ≡ new_entry (lookup key ((j, new) ∷ rest)) (entry key d))
              (put lib j new d')
      put-entry none h = tt
      put-entry (some entries) h =
          ground (arith, lookup-insert entries key j (lib.encode_to_string new), h)

  -- An entry of the new data, encoded, and any other key as before.
  abbrev pub read_back : Option Bytes → Result SecretError Bytes → Result SecretError Bytes
  read_back none old = old
  read_back (some new) old = value (lib.encode_to_string new)

  entry-read_back :
      (new : Option Bytes) (old : Option Bytes)
      → or_error (new_entry new old) no_value ≡ read_back new (or_error old no_value)
  entry-read_back none old = refl
  entry-read_back (some new) old = refl

  module _ (law : IsCluster lib) (k k' : lib.Cluster) (namespace name key : Bytes)
      (new_data : List (Bytes × Bytes)) where
    -- `GetSecretValue` behind `GetK8sClient`
    abbrev read_with : lib.Cluster → Result SecretError lib.Clientset → Result SecretError Bytes
    read_with x client = client >>>= λ c.
        or_error (lib.get c namespace name x) no_secret >>>= λ secret.
        or_error (entry key secret.data_) no_value

    put-read_back :
        (c : lib.Clientset) (secret : Secret) (d : Data lib)
        → lib.get c namespace name k ≡ some secret
        → entry key d ≡ new_entry (lookup key new_data) (entry key secret.data_)
        → updated lib c namespace k secret d ≡ value k'
        → read_with k' (value c) ≡ read_back (lookup key new_data) (read_with k (value c))
    put-read_back c secret d g e u =
        let o = law.get-name c namespace name secret k g in
        let found =
          law.update-get c namespace (record secret { data_ = d }) k k'
            (or_error-value not_updated (lib.update c namespace (record secret { data_ = d }) k)
              u) in
        rw
          (g, subst (λ n. lib.get c namespace n k' ≡ some (record secret { data_ = d })) o found, e)
          (entry-read_back (lookup key new_data) (entry key secret.data_))

    updated-read_back :
        (c : lib.Clientset) (o : Option Secret)
        → lib.get c namespace name k ≡ o
        → update_secret lib k namespace new_data c (or_error o no_secret) ≡ ok (value k')
        → read_with k' (value c) ≡ read_back (lookup key new_data) (read_with k (value c))
    updated-read_back c none g u = cc
    updated-read_back c (some secret) g u =
        let (d, p, q) = bind-ok (put_all lib new_data secret.data_) _ u in
        put-read_back c secret d g
          (of_Returns _ (put_all lib new_data secret.data_)
            (put_all-entry key new_data secret.data_) p)
          (cc)

    client-read_back :
        (client : Result SecretError lib.Clientset)
        → update_with lib k namespace name new_data client ≡ ok (value k')
        → read_with k' client ≡ read_back (lookup key new_data) (read_with k client)
    client-read_back (error e) u = cc
    client-read_back (value c) u = updated-read_back c (lib.get c namespace name k) refl u

    -- If `UpdateSecretValue` succeeds, then `GetSecretValue` reads each new value encoded in base64,
    -- not the value that was given, since the API encodes the data itself; and each other key reads
    -- as before.
    pub get-update :
        update_secret_value lib k namespace name new_data ≡ ok (value k')
        → get_secret_value lib k' namespace name key
          ≡ read_back (lookup key new_data) (get_secret_value lib k namespace name key)
    unfolding update_secret_value Secrets.get_secret_value
    get-update u = client-read_back (get_k8s_client lib) u
