-- ===== src/Greeting.antt =====
-- The first message on a websocket, by which client/utils.go tells server/server.go the wanted idle
-- size and the connection type; fmt, strings and strconv as far as the two files use them.
pub mod RoundTrip
use zk_wsp.Prelude.{
  ℕ, zero, suc, ◌+◌, ◌-◌, ◌*◌, ◌/◌, ◌%◌, ◌^◌, ◌≡◌, refl, Bool, true, false, ◌||◌, Option, none,
  some, List, [], ◌∷◌, ◌++◌, Bytes, codes, ltb, leb, ◌==◌, if◌then◌else◌,
}
use zk_wsp.Prelude.Int.{ℤ, pos, negsuc}
use zk_wsp.Outcome.{Outcome, ok, panic}
use zk_wsp.Common.Types.{ConnectionType, read, write, unknown, to_int}

-- The decimal digits of `n` before `out`; a number has at most as many digits as its value plus one.
pub digits : ℕ → ℕ → Bytes → Bytes
digits zero n out = out
digits (suc f) n out =
    let rest = digits f (n / 10) ((b'0' + n % 10) ∷ out) in
    if ltb n 10 then (b'0' + n) ∷ out else rest

-- `%d`
pub print_ℕ : ℕ → Bytes
print_ℕ n = digits (suc n) n []

unfoldable pub print_ℤ : ℤ → Bytes
unfolding print_ℕ digits
print_ℤ (pos n) = print_ℕ n
print_ℤ (negsuc n) = b'-' ∷ print_ℕ (suc n)

pub scan : Bytes → ℕ → Option ℕ
scan [] n = some n
scan (c ∷ s) n = if ltb c b'0' || ltb b'9' c then none else scan s (n * 10 + (c - b'0'))

-- A number is one digit or more.
pub parse_ℕ : Bytes → Option ℕ
unfolding scan
parse_ℕ [] = none
parse_ℕ (c ∷ s) = scan (c ∷ s) 0

-- An `int` has 64 bits; beyond them `strconv.Atoi` fails.
abbrev pub positive : Option ℕ → Option ℤ
positive none = none
positive (some n) = if ltb n (2 ^ 63) then some (pos n) else none

abbrev pub negative : Option ℕ → Option ℤ
negative none = none
negative (some zero) = some (pos 0)
negative (some (suc n)) = if ltb n (2 ^ 63) then some (negsuc n) else none

-- `strconv.Atoi`
unfoldable pub atoi : Bytes → Option ℤ
unfolding parse_ℕ
atoi [] = none
atoi (c ∷ s) =
    if c == b'-'
    then negative (parse_ℕ s)
    else if c == b'+'
    then positive (parse_ℕ s)
    else positive (parse_ℕ (c ∷ s))

abbrev push_first : ℕ → List Bytes → List Bytes
push_first c [] = (c ∷ []) ∷ []
push_first c (p ∷ ps) = (c ∷ p) ∷ ps

-- `strings.Split` at a one-byte separator: always one part or more.
unfoldable pub split : ℕ → Bytes → List Bytes
split sep [] = [] ∷ []
split sep (c ∷ s) = if c == sep then [] ∷ split sep s else push_first c (split sep s)

-- The type of the server's end of a connection: it writes where the client reads.
unfoldable pub server_conn_type : ConnectionType → ConnectionType
server_conn_type read = write
server_conn_type write = read
server_conn_type (unknown n) = read

-- `fmt.Sprintf("%d_%d", PoolIdleSize, serverConnType)`
unfoldable pub greeting : ℤ → ConnectionType → Bytes
unfolding print_ℤ
greeting idle_size type = print_ℤ idle_size ++ b'_' ∷ print_ℤ (to_int (server_conn_type type))

-- How the server reads a greeting: the idle size and the type, or `none` if a part is no number.
-- `split[1]` panics if there is no separator.
abbrev pub second_part : ℤ → List Bytes → Outcome (Option (ℤ × ℤ))
second_part size [] = panic
second_part size (p ∷ _) = ok (elim (atoi p) [ none ↦ none | some t ↦ some (size, t) ])

abbrev pub parts : List Bytes → Outcome (Option (ℤ × ℤ))
parts [] = panic
parts (p ∷ ps) = elim (atoi p) [ none ↦ ok none | some size ↦ second_part size ps ]

unfoldable pub parse_greeting : Bytes → Outcome (Option (ℤ × ℤ))
parse_greeting g = parts (split b'_' g)

greeting_of_read : greeting (pos 5) read ≡ codes "5_1"
unfolding greeting to_int server_conn_type
greeting_of_read = refl

negative_size : parse_greeting (codes "-12_0") ≡ ok (some (negsuc 11, pos 0))
unfolding parse_greeting atoi split
negative_size = refl

no_separator : parse_greeting (codes "5") ≡ panic
unfolding parse_greeting atoi split
no_separator = refl
