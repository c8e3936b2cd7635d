-- ===== src/Files.antt =====
-- Configuration files: utils/utils.go.
use zk_wsp.Prelude.{Bool, true, false, Option, none, some, Bytes, is_empty, if◌then◌else◌}

-- `os.ReadFile`, and `yaml.Unmarshal` into a configuration: whether it succeeds, and what it leaves.
pub record Files (C : Type 0) : Type 0 where
  pub read_file : Bytes → Option Bytes
  pub unmarshal : Bytes → C → Bool × C

pub data ArgsError : Type 0 where
  no_path unreadable not_yaml : ArgsError

abbrev unmarshaled : {C : Type 0} → Bool × C → Option ArgsError × C
unmarshaled (true, c) = (none, c)
unmarshaled (false, c) = (some not_yaml, c)

abbrev read_into : {C : Type 0} → Files C → C → Option Bytes → Option ArgsError × C
read_into files c none = (some unreadable, c)
read_into files c (some contents) = unmarshaled (files.unmarshal contents c)

-- `ProcessArgs`, with the path that the flag `-c` has.
unfoldable pub process_args : {C : Type 0} → Files C → Bytes → C → Option ArgsError × C
process_args files path c =
    if is_empty path then (some no_path, c) else read_into files c (files.read_file path)
