-- ===== src/Common/Types.antt =====
-- common/types.go: the status of a connection and the connection types.
use zk_wsp.Prelude.{zero, suc, Bool, true, false}
use zk_wsp.Prelude.Int.{ℤ, pos}

-- CONNECTING, IDLE, BUSY and CLOSED, in the order of the `iota`.
pub data Status : Type 0 where
  connecting idle busy closed : Status

-- Tests `status == IDLE` and so on.
abbrev pub is_connecting : Status → Bool
is_connecting connecting = true
is_connecting _ = false

abbrev pub is_idle : Status → Bool
is_idle idle = true
is_idle _ = false

abbrev pub is_busy : Status → Bool
is_busy busy = true
is_busy _ = false

abbrev pub is_closed : Status → Bool
is_closed closed = true
is_closed _ = false

-- `ConnectionType` is an int; `Read` is 0 and `Write` is 1, any other value is no constant's.
pub data ConnectionType : Type 0 where
  read write : ConnectionType
  unknown : ℤ → ConnectionType

-- The conversion `ConnectionType(n)`, and the number of a connection type.
unfoldable pub of_int : ℤ → ConnectionType
of_int (pos zero) = read
of_int (pos (suc zero)) = write
of_int n = unknown n

unfoldable pub to_int : ConnectionType → ℤ
to_int read = pos 0
to_int write = pos 1
to_int (unknown n) = n
