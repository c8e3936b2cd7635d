-- ===== src/Http/Rule/Laws.antt =====
-- What a rule matches: request.go, `NewRule` and `Match`.
use zk_wsp.Prelude.{
  ap, ◌∙◌, Option-cases, ◌≡◌, inl, inr, refl, Bool, true, false, ◌&&◌, not, Option, none, some,
  List, [], ◌∷◌, Bytes, is_empty, if◌then◌else◌, Bool-cases,
}
use zk_wsp.Http.Header.{get}
use zk_wsp.Http.Request.{UrlLib, Request}
use zk_wsp.Http.Rule.{
  RegexpLib, Rule, compiled, compile_pattern, compile_headers, with_headers, with_url, with_method,
  new_rule, passes, match_headers, match_rule, fresh_rule,
}

module _ (lib : RegexpLib) where
  open lib use {Regexp, compile, match_string}

  abbrev pub matches_with : Option Regexp → Bytes → Bool
  matches_with none text = false
  matches_with (some r) text = match_string r text

  -- The pattern is a regular expression that matches the text.
  abbrev pub matches : Bytes → Bytes → Bool
  matches p text = matches_with (compile p) text

  -- The same for the patterns that may be left out.
  abbrev pub allows : Bytes → Bytes → Bool
  allows p text = if is_empty p then true else matches p text

  abbrev pub matches_headers : (urls : UrlLib) → List (Bytes × Bytes) → Request urls.Url → Bool
  matches_headers urls [] req = true
  matches_headers urls ((name, p) ∷ hs) req =
      matches p (get req.header name) && matches_headers urls hs req

  -- What the documentation of a rule says: all its patterns match.
  abbrev pub permits :
      (urls : UrlLib) → Bytes → Bytes → List (Bytes × Bytes) → Request urls.Url → Bool
  permits urls method url headers req =
      allows method req.method
      && (allows url (urls.string req.url) && matches_headers urls headers req)

  compile_pattern-passes :
      (p text : Bytes)
      → (compile_pattern lib p none).0 ≡ none
      → passes lib (compile_pattern lib p none).1 text ≡ allows p text
  unfolding compile_pattern
  compile_pattern-passes p text h = elim (Bool-cases (is_empty p)) [
    | inl e ↦ rw e refl
    | inr n ↦ rw n (go (compile p) (rw n at h))
  ]
    where
      go :
          (c : Option Regexp)
          → (compiled lib p c).0 ≡ none
          → passes lib (compiled lib p c).1 text ≡ matches_with c text
      go none e = cc
      go (some r) e = refl

  not_if : (b c : Bool) → (if not b then false else c) ≡ (b && c)
  not_if true c = refl
  not_if false c = refl

  compile_headers-matches :
      (urls : UrlLib) (hs : List (Bytes × Bytes)) (req : Request urls.Url)
      → (compile_headers lib hs).0 ≡ none
      → match_headers lib urls (compile_headers lib hs).1 req ≡ matches_headers urls hs req
  unfolding compile_headers
  compile_headers-matches urls [] req h = refl
  compile_headers-matches urls ((name, p) ∷ hs) req h = elim (Option-cases (compile p)) [
    | inl n ↦ cc (rw (compile_headers, n) at h)
    | inr (r, e) ↦
        rw (match_headers, e)
          (not_if (match_string r (get req.header name)) _
            ∙ ap (λ b. match_string r (get req.header name) && b)
                (compile_headers-matches urls hs req (rw (compile_headers, e) at h)))
  ]

  -- The three steps of `Compile`, if none has an error, from the last to the first.
  module _ (urls : UrlLib) (req : Request urls.Url) where
    abbrev rest : Rule Regexp → Bool
    rest rule = matches_headers urls rule.headers req

    with_headers-match :
        (rule : Rule Regexp)
        → (with_headers lib rule (compile_headers lib rule.headers)).0 ≡ none
        → match_rule lib urls (with_headers lib rule (compile_headers lib rule.headers)).1 req ≡ (
            passes lib rule.method_regex req.method
            && (passes lib rule.url_regex (urls.string req.url) && rest rule))
    unfolding match_rule
    with_headers-match rule h =
        not_if (passes lib rule.method_regex req.method) _
        ∙ ap (λ b. passes lib rule.method_regex req.method && b)
            (not_if (passes lib rule.url_regex (urls.string req.url)) _
              ∙ ap (λ b. passes lib rule.url_regex (urls.string req.url) && b)
                  (compile_headers-matches urls rule.headers req h))

    with_url-match :
        (rule : Rule Regexp) (x : Option Bytes × Option Regexp)
        → (with_url lib rule x).0 ≡ none
        → (x.0 ≡ none)
          × (match_rule lib urls (with_url lib rule x).1 req ≡ (
              passes lib rule.method_regex req.method
              && (passes lib x.1 (urls.string req.url) && rest rule)))
    with_url-match rule (some err, r) h = cc
    with_url-match rule (none, r) h = (refl, with_headers-match (record rule { url_regex = r }) h)

    with_method-match :
        (method url : Bytes) (headers : List (Bytes × Bytes)) (x : Option Bytes × Option Regexp)
        → (with_method lib (fresh_rule lib method url headers) x).0 ≡ none
        → (x.0 ≡ none)
          × (match_rule lib urls (with_method lib (fresh_rule lib method url headers) x).1 req ≡ (
              passes lib x.1 req.method
              && (allows url (urls.string req.url) && matches_headers urls headers req)))
    with_method-match method url headers (some err, r) h = cc
    with_method-match method url headers (none, r) h =
        let rule = record (fresh_rule lib method url headers) { method_regex = r } in
        let (e, m) = with_url-match rule (compile_pattern lib url none) h in
        (
          refl,
          m
              ∙ ap (λ b. passes lib r req.method && (b && rest rule))
                  (compile_pattern-passes url (urls.string req.url) e),
        )

    -- A rule that `NewRule` makes without an error matches a request exactly if all its patterns
    -- do: those of the method and of the URL, unless they are empty, and that of each header.
    pub match-permits :
        (method url : Bytes) (headers : List (Bytes × Bytes))
        → (new_rule lib method url headers).0 ≡ none
        → match_rule lib urls (new_rule lib method url headers).1 req
          ≡ permits urls method url headers req
    unfolding new_rule
    match-permits method url headers h =
        let (e, m) = with_method-match method url headers (compile_pattern lib method none) h in
        m
        ∙ ap (λ b. b && (allows url (urls.string req.url) && matches_headers urls headers req))
            (compile_pattern-passes method req.method e)
