-- ===== src/Prelude/Text.antt =====
-- Python's f-strings, as the list of their parts, and defaults for texts that may be missing.
use Prim.Native.String.{String, ◌++◌}
use mathlib.Core.Option.{Option, none, some}
use text.Mathlib.Text.{◌==◌}
use asante_secure_multi_agen.Prelude.Tests.{if◌then◌else◌}
use mathlib.Core.List.{List, [], ◌∷◌}

abbrev pub fstring : List String → String
fstring [] = ""
fstring (s ∷ rest) = s ++ fstring rest

-- `value or default` on a text that may be missing.
abbrev pub or_else : Option String → String → String
or_else none default = default
or_else (some s) default = if s == "" then default else s

-- `os.getenv(name, default)`
abbrev pub getenv_or : Option String → String → String
getenv_or none default = default
getenv_or (some s) default = s
