-- ===== src/Tests/Greetings.antt =====
-- Greetings at concrete inputs.
use zk_wsp.Prelude.{◌≡◌, some, arith}
use zk_wsp.Prelude.Int.{pos}
use zk_wsp.Outcome.{ok}
use zk_wsp.Common.Types.{read, to_int}
use zk_wsp.Greeting.{parse_greeting, greeting, server_conn_type}
use zk_wsp.Greeting.RoundTrip.{parse_greeting-greeting}

greeting_example :
    parse_greeting (greeting (pos 5) read) ≡ ok (some (pos 5, to_int (server_conn_type read)))
unfolding server_conn_type to_int
greeting_example = parse_greeting-greeting (pos 5) read (omega arith) (omega arith)
