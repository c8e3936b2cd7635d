-- ===== src/Http/Header.antt =====
-- `http.Header` as net/http keeps it: entries in order, each under the canonical form of its key.
use zk_wsp.Prelude.{
  ℕ, ◌+◌, ◌-◌, ◌≡◌, refl, Bool, true, ◌&&◌, not, List, [], ◌∷◌, ◌++◌, leb, ◌==◌, if◌then◌else◌,
  Bytes, codes, same, keep, arith, same_refl, Bool-cases, inl, inr,
}

is_upper : ℕ → Bool
is_upper c = leb b'A' c && leb c b'Z'

is_lower : ℕ → Bool
is_lower c = leb b'a' c && leb c b'z'

-- The first letter and those behind a dash in upper case, all others in lower case.
canonical_from : Bool → Bytes → Bytes
unfolding is_upper is_lower
canonical_from upper [] = []
canonical_from upper (c ∷ s) =
    (if upper && is_lower c then c - 32 else if not upper && is_upper c then c + 32 else c)
    ∷ canonical_from (c == b'-') s

-- `CanonicalHeaderKey`, for the keys of header fields that may stand in a request or a response.
unfoldable pub canonical : Bytes → Bytes
unfolding canonical_from
canonical k = canonical_from true k

canonical_client_id : canonical (codes "X-CLIENT-ID") ≡ codes "X-Client-Id"
unfolding canonical
canonical_client_id = refl

abbrev pub Header : Type 0
Header = List (Bytes × Bytes)

-- The first value under a key, and "" if there is none.
first_value : Bytes → Header → Bytes
first_value k [] = []
first_value k ((j, v) ∷ h) = if same j k then v else first_value k h

unfoldable pub get : Header → Bytes → Bytes
unfolding first_value
get h k = first_value (canonical k) h

unfoldable pub add : Header → Bytes → Bytes → Header
add h k v = h ++ (canonical k, v) ∷ []

-- `Set` replaces the values under the key.
unfoldable pub set : Header → Bytes → Bytes → Header
set h k v = keep (λ e. not (same e.0 (canonical k))) h ++ (canonical k, v) ∷ []

-- `URL.Query().Get`: the keys of a query are compared as they stand.
unfoldable pub query_get : List (Bytes × Bytes) → Bytes → Bytes
unfolding first_value
query_get q k = first_value k q

first_value-keep :
    (k v : Bytes) (h : Header) → first_value k (keep (λ e. not (same e.0 k)) h ++ (k, v) ∷ []) ≡ v
unfolding first_value
first_value-keep k v [] = ground (arith, same_refl k)
first_value-keep k v ((j, w) ∷ h) = elim (Bool-cases (same j k)) [
  | inl hit ↦ rw hit (first_value-keep k v h)
  | inr miss ↦ rw (miss, miss) (first_value-keep k v h)
]

pub get-set : (h : Header) (k v : Bytes) → get (set h k v) k ≡ v
unfolding get set
get-set h k v = first_value-keep (canonical k) v h
