-- ===== src/Greeting/RoundTrip.antt =====
-- What the client prints in its greeting, the server reads.
use zk_wsp.Prelude.{
  ℕ, zero, suc, ◌/◌, ◌^◌, ◌<◌, ◌≤◌, ◌≡◌, ◌≢◌, inl, inr, ◌∙◌, refl, ap, some, [], ◌∷◌, ◌++◌, Bytes,
  arith, ltb, All, Bool-cases,
}
use zk_wsp.Prelude.Int.{ℤ, pos, negsuc}
use zk_wsp.Outcome.{ok, panic}
use zk_wsp.Common.Types.{ConnectionType, to_int}
use zk_wsp.Greeting.{
  digits, print_ℕ, print_ℤ, scan, parse_ℕ, atoi, split, parse_greeting, greeting, server_conn_type,
  positive, negative, parts,
}

abbrev IsDigit : ℕ → Type 0
IsDigit c = (b'0' ≤ c) × (c ≤ b'9')

digits-IsDigit : (f n : ℕ) (out : Bytes) → n < f → All IsDigit out → All IsDigit (digits f n out)
unfolding digits
digits-IsDigit zero n out h a = absurd (omega arith)
digits-IsDigit (suc f) n out h a = elim (Bool-cases (ltb n 10)) [
  | inl e ↦ rw e ((omega arith, ground arith), a)
  | inr e ↦ rw e (digits-IsDigit f (n / 10) _ (ground arith) ((omega arith, omega arith), a))
]

scan-digits : (f n : ℕ) (out : Bytes) → n < f → scan (digits f n out) 0 ≡ scan out n
unfolding digits
scan-digits zero n out h = absurd (omega arith)
scan-digits (suc f) n out h = elim (Bool-cases (ltb n 10)) [
  | inl e ↦ rw e (unfold scan in ground arith)
  | inr e ↦ rw e (scan-digits f (n / 10) _ (ground arith) ∙ unfold scan in ground arith)
]

digits-ne-nil : (f n : ℕ) (out : Bytes) → n < f → digits f n out ≢ []
unfolding digits
digits-ne-nil zero n out h = absurd (omega arith)
digits-ne-nil (suc f) n out h = elim (Bool-cases (ltb n 10)) [
  | inl e ↦ rw e (λ q. cc)
  | inr e ↦ rw e (digits-ne-nil f (n / 10) _ (ground arith))
]

parse_ℕ-scan : (s : Bytes) → s ≢ [] → parse_ℕ s ≡ scan s 0
unfolding parse_ℕ
parse_ℕ-scan [] h = absurd (h refl)
parse_ℕ-scan (c ∷ s) h = refl

parse_ℕ-print_ℕ : (n : ℕ) → parse_ℕ (print_ℕ n) ≡ some n
unfolding print_ℕ
parse_ℕ-print_ℕ n =
    parse_ℕ-scan (digits (suc n) n []) (digits-ne-nil (suc n) n [] (omega arith))
    ∙ scan-digits (suc n) n [] (omega arith)
    ∙ unfold scan in refl

print_ℕ-IsDigit : (n : ℕ) → All IsDigit (print_ℕ n)
unfolding print_ℕ
print_ℕ-IsDigit n = digits-IsDigit (suc n) n [] (omega arith) tt

-- An `int` has 64 bits.
abbrev pub IsInt : ℤ → Type 0
IsInt (pos n) = n < 2 ^ 63
IsInt (negsuc n) = n < 2 ^ 63

atoi-digits : (s : Bytes) → s ≢ [] → All IsDigit s → atoi s ≡ positive (parse_ℕ s)
unfolding atoi
atoi-digits [] h a = absurd (h refl)
atoi-digits (c ∷ s) h a = ground arith

print_ℕ-ne-nil : (n : ℕ) → print_ℕ n ≢ []
unfolding print_ℕ
print_ℕ-ne-nil n = digits-ne-nil (suc n) n [] (omega arith)

atoi-print_ℤ : (z : ℤ) → IsInt z → atoi (print_ℤ z) ≡ some z
unfolding print_ℤ
atoi-print_ℤ (pos n) h =
    atoi-digits (print_ℕ n) (print_ℕ-ne-nil n) (print_ℕ-IsDigit n)
    ∙ ap positive (parse_ℕ-print_ℕ n)
    ∙ ground arith
atoi-print_ℤ (negsuc n) h = unfold atoi in (ap negative (parse_ℕ-print_ℕ (suc n)) ∙ ground arith)

abbrev pub NoSeparator : Bytes → Type 0
NoSeparator = All (λ c. c ≢ b'_')

IsDigit-NoSeparator : (s : Bytes) → All IsDigit s → NoSeparator s
IsDigit-NoSeparator [] a = tt
IsDigit-NoSeparator (c ∷ s) a = ((λ e. omega arith), IsDigit-NoSeparator s a.1)

print_ℤ-NoSeparator : (z : ℤ) → NoSeparator (print_ℤ z)
unfolding print_ℤ
print_ℤ-NoSeparator (pos n) = IsDigit-NoSeparator (print_ℕ n) (print_ℕ-IsDigit n)
print_ℤ-NoSeparator (negsuc n) =
    ((λ e. omega arith), IsDigit-NoSeparator (print_ℕ (suc n)) (print_ℕ-IsDigit (suc n)))

split_one : (t : Bytes) → NoSeparator t → split b'_' t ≡ t ∷ []
unfolding split
split_one [] a = refl
split_one (c ∷ t) a = ground (arith, split_one t a.1, a.0)

split_two : (s t : Bytes) → NoSeparator s → NoSeparator t → split b'_' (s ++ b'_' ∷ t) ≡ s ∷ t ∷ []
unfolding split
split_two [] t a b = ground (arith, split_one t b)
split_two (c ∷ s) t a b = ground (arith, split_two s t a.1 b, a.0)

-- For every idle size that fits an `int` and either connection type, the server reads from the
-- client's greeting that idle size and the type of its own end, which is the opposite one.
pub parse_greeting-greeting :
    (size : ℤ) (type : ConnectionType)
    → IsInt size
    → IsInt (to_int (server_conn_type type))
    → parse_greeting (greeting size type) ≡ ok (some (size, to_int (server_conn_type type)))
unfolding parse_greeting greeting
parse_greeting-greeting size type h k = rw (
  split_two (print_ℤ size) (print_ℤ (to_int (server_conn_type type))) (print_ℤ-NoSeparator size)
      (print_ℤ-NoSeparator (to_int (server_conn_type type))),
  parts,
  atoi-print_ℤ size h,
  atoi-print_ℤ (to_int (server_conn_type type)) k,
)

pub parse_greeting-one :
    (g : Bytes) (n : ℤ) → NoSeparator g → atoi g ≡ some n → parse_greeting g ≡ panic
unfolding parse_greeting
parse_greeting-one g n h k = rw (split_one g h, parts, k)
