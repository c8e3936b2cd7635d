-- ===== src/Tests/Rules.antt =====
-- Rules of requests at concrete patterns. A regular expression stands here for equality of texts.
use zk_wsp.Prelude.{◌≡◌, refl, some, List, [], ◌∷◌, Bytes, codes, same}
use zk_wsp.Http.Rule.{RegexpLib, compile_pattern, compile_headers, new_rule, match_rule}
use zk_wsp.Http.Rule.Laws.{permits, match-permits}
use zk_wsp.Tests.Data.{plain_urls, http_request}

abbrev literal : RegexpLib
literal = record { Regexp = Bytes; compile = λ p. some p; match_string = same }

abbrev headers : List (Bytes × Bytes)
headers = (codes "A", []) ∷ (codes "B", codes "b") ∷ []

permits_example :
    match_rule literal plain_urls (new_rule literal (codes "GET") [] headers).1 http_request
    ≡ permits literal plain_urls (codes "GET") [] headers http_request
unfolding new_rule compile_pattern compile_headers
permits_example = match-permits literal plain_urls http_request (codes "GET") [] headers refl
