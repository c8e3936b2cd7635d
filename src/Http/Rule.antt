-- ===== src/Http/Rule.antt =====
-- request.go: the rules that allow or deny a request by regular expressions. The package regexp is a
-- parameter. The headers of a rule are a Go map: a list of entries with distinct names, in the order
-- of its iteration.
pub mod Laws
pub mod Order
use zk_wsp.Prelude.{
  Bool, true, false, not, ◌&&◌, Option, none, some, List, [], ◌∷◌, Bytes, is_empty, if◌then◌else◌,
}
use zk_wsp.Http.Header.{get}
use zk_wsp.Http.Request.{UrlLib, Request}

-- `regexp.Compile` and `MatchString`.
pub record RegexpLib : Type 1 where
  pub Regexp : Type 0
  pub compile : Bytes → Option Regexp
  pub match_string : Regexp → Bytes → Bool

pub record Rule (Regexp : Type 0) : Type 0 where
  pub method : Bytes
  pub url : Bytes
  pub headers : List (Bytes × Bytes)
  pub method_regex : Option Regexp
  pub url_regex : Option Regexp
  pub headers_regex : List (Bytes × Regexp)

module _ (lib : RegexpLib) where
  open lib use {Regexp, compile, match_string}

  -- The regular expression of a pattern, in place of `old`, and the pattern if it is none: an empty
  -- pattern is not compiled, and an error leaves nil.
  abbrev pub compiled : Bytes → Option Regexp → Option Bytes × Option Regexp
  compiled p none = (some p, none)
  compiled p (some r) = (none, some r)

  unfoldable pub compile_pattern : Bytes → Option Regexp → Option Bytes × Option Regexp
  compile_pattern p old = if is_empty p then (none, old) else compiled p (compile p)

  -- The loop of `Compile` over the headers, where an empty pattern is compiled like any other.
  unfoldable pub compile_headers : List (Bytes × Bytes) → Option Bytes × List (Bytes × Regexp)
  compile_headers [] = (none, [])
  compile_headers ((name, p) ∷ hs) = elim (compile p) [
    | none ↦ (some p, [])
    | some r ↦ let (err, rs) = compile_headers hs in (err, (name, r) ∷ rs)
  ]

  -- What `Compile` returns: the pattern that is no regular expression, if there is one, and the rule.
  abbrev pub Compiled : Type 0
  Compiled = Option Bytes × Rule Regexp

  abbrev pub with_headers : Rule Regexp → Option Bytes × List (Bytes × Regexp) → Compiled
  with_headers rule (err, rs) = (err, record rule { headers_regex = rs })

  abbrev pub with_url : Rule Regexp → Option Bytes × Option Regexp → Compiled
  with_url rule (some err, r) = (some err, record rule { url_regex = r })
  with_url rule (none, r) =
      with_headers (record rule { url_regex = r }) (compile_headers rule.headers)

  abbrev pub with_method : Rule Regexp → Option Bytes × Option Regexp → Compiled
  with_method rule (some err, r) = (some err, record rule { method_regex = r })
  with_method rule (none, r) =
      with_url (record rule { method_regex = r }) (compile_pattern rule.url rule.url_regex)

  -- `Compile`
  unfoldable pub compile_rule : Rule Regexp → Compiled
  compile_rule rule = with_method rule (compile_pattern rule.method rule.method_regex)

  abbrev pub fresh_rule : Bytes → Bytes → List (Bytes × Bytes) → Rule Regexp
  fresh_rule method url headers = record {
    method = method;
    url = url;
    headers = headers;
    method_regex = none;
    url_regex = none;
    headers_regex = [];
  }

  -- `NewRule`, with no entry for nil headers. It returns the rule also on an error.
  unfoldable pub new_rule : Bytes → Bytes → List (Bytes × Bytes) → Compiled
  unfolding compile_rule
  new_rule method url headers = compile_rule (fresh_rule method url headers)

  -- `regex != nil && !regex.MatchString(text)`, negated.
  abbrev pub passes : Option Regexp → Bytes → Bool
  passes none text = true
  passes (some r) text = match_string r text

  module _ (urls : UrlLib) where
    abbrev pub match_headers : List (Bytes × Regexp) → Request urls.Url → Bool
    match_headers [] req = true
    match_headers ((name, r) ∷ rs) req =
        if not (match_string r (get req.header name)) then false else match_headers rs req

    -- `Match`
    unfoldable pub match_rule : Rule Regexp → Request urls.Url → Bool
    match_rule rule req =
        if not (passes rule.method_regex req.method)
        then false
        else if not (passes rule.url_regex (urls.string req.url))
        then false
        else match_headers rule.headers_regex req
