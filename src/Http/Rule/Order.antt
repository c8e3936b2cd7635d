-- ===== src/Http/Rule/Order.antt =====
-- The order in which Go iterates over the headers of a rule: request.go, `Compile` and `Match`.
use mathlib.Core.Bool.{Bool-set}
use mathlib.Core.List.{Perm, foldr}
use mathlib.Core.List.Perm
use zk_wsp.Prelude.{◌≡◌, ◌∙◌, refl, sym, ap, Bool, true, false, ◌&&◌, none, List, [], ◌∷◌, Bytes}
use zk_wsp.Http.Header.{get}
use zk_wsp.Http.Request.{UrlLib, Request}
use zk_wsp.Http.Rule.{RegexpLib, new_rule, match_rule}
use zk_wsp.Http.Rule.Laws.{matches, matches_headers, allows, match-permits}

module _ (lib : RegexpLib) (urls : UrlLib) (req : Request urls.Url) where
  abbrev test : Bytes × Bytes → Bool → Bool
  test (name, p) b = matches lib p (get req.header name) && b

  and_swap : (x y b : Bool) → (x && (y && b)) ≡ (y && (x && b))
  and_swap true y b = refl
  and_swap false true b = refl
  and_swap false false b = refl

  test_swap : (d e : Bytes × Bytes) (b : Bool) → test d (test e b) ≡ test e (test d b)
  test_swap (m, p) (n, q) b =
      and_swap (matches lib p (get req.header m)) (matches lib q (get req.header n)) b

  matches_headers-foldr :
      (hs : List (Bytes × Bytes)) → matches_headers lib urls hs req ≡ foldr test true hs
  matches_headers-foldr [] = refl
  matches_headers-foldr ((name, p) ∷ hs) =
      ap (λ b. matches lib p (get req.header name) && b) (matches_headers-foldr hs)

  matches_headers-perm :
      {hs ks : List (Bytes × Bytes)}
      → Perm hs ks
      → matches_headers lib urls hs req ≡ matches_headers lib urls ks req
  matches_headers-perm {hs} {ks} o =
      matches_headers-foldr hs
      ∙ Perm.foldr-eq Bool-set test test_swap o true
      ∙ sym (matches_headers-foldr ks)

  -- Whether a rule matches does not depend on the order in which its headers are iterated: two
  -- rules that `NewRule` makes without an error of the same patterns, with the headers in another
  -- order, match the same requests.
  pub match-perm :
      (method url : Bytes) {hs ks : List (Bytes × Bytes)}
      → Perm hs ks
      → (new_rule lib method url hs).0 ≡ none
      → (new_rule lib method url ks).0 ≡ none
      → match_rule lib urls (new_rule lib method url hs).1 req
        ≡ match_rule lib urls (new_rule lib method url ks).1 req
  match-perm method url {hs} {ks} o e f =
      match-permits lib urls req method url hs e
      ∙ ap (λ b. allows lib method req.method && (allows lib url (urls.string req.url) && b))
          (matches_headers-perm o)
      ∙ sym (match-permits lib urls req method url ks f)
