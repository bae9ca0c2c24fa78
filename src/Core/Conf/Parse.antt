-- ===== src/Core/Conf/Parse.antt =====
-- src/core/conf.c: the configuration file. The text of a file is what its name stands for, `none` if it
-- cannot be opened; the diagnostics on stderr are left out.
pub mod Lines
pub mod Setting
pub mod Settings
pub mod Rounds
use miniweb.Prelude.{
  ℕ, zero, suc, ◌-◌, ◌==◌, Bool, true, false, not, ◌&&◌, ◌||◌, Option, none, some, List, [], ◌∷◌,
  ◌++◌, map, Bytes, codes, c_string, str_eq, tolower, take, length, if◌then◌else◌, ℤ, pos, negsuc,
  isspace, ltrim, atoi,
}
use miniweb.Core.Conf.{MiniwebConf, field, conf_validate, str_max}

-- `strcasecmp(s, name) == 0` for a `name` in lower case.
abbrev pub is_name : Bytes → Bytes → Bool
is_name s name = str_eq (map tolower s) name

abbrev pub is_zero : ℤ → Bool
is_zero (pos zero) = true
is_zero (pos (suc n)) = false
is_zero (negsuc n) = false

-- A line without the spaces at its end.
unfoldable pub rtrim : Bytes → Bytes
rtrim [] = []
rtrim (c ∷ s) = elim (rtrim s) [ [] ↦ if isspace c then [] else c ∷ [] | d ∷ t ↦ c ∷ d ∷ t ]

unfoldable pub parse_bool : Bytes → Bool
parse_bool val =
    if is_name val (codes "yes") || is_name val (codes "true")
    then true
    else if is_name val (codes "no") || is_name val (codes "false")
    then false
    else not (is_zero (atoi val))

-- `none` is the result -1.
unfoldable pub conf_apply_kv : MiniwebConf → Bytes → Bytes → Option MiniwebConf
conf_apply_kv conf key val =
    if is_name key (codes "port")
    then some (record conf { port = atoi val })
    else if is_name key (codes "bind_addr") || is_name key (codes "bind")
    then some (record conf { bind_addr = field val })
    else if is_name key (codes "threads")
    then some (record conf { threads = atoi val })
    else if is_name key (codes "max_conns")
    then some (record conf { max_conns = atoi val })
    else if is_name key (codes "conn_timeout")
    then some (record conf { conn_timeout = atoi val })
    else if is_name key (codes "max_req_size")
    then some (record conf { max_req_size = atoi val })
    else if is_name key (codes "mandoc_timeout")
    then some (record conf { mandoc_timeout = atoi val })
    else if is_name key (codes "static_dir")
    then some (record conf { static_dir = field val })
    else if is_name key (codes "templates_dir")
    then some (record conf { templates_dir = field val })
    else if is_name key (codes "autoindex")
    then some (record conf { autoindex = parse_bool val })
    else if is_name key (codes "mandoc_path")
    then some (record conf { mandoc_path = field val })
    else if is_name key (codes "trusted_proxy")
    then some (record conf { trusted_proxy = field val })
    else if is_name key (codes "verbose")
    then some (record conf { verbose = parse_bool val })
    else if is_name key (codes "log_file")
    then some (record conf { log_file = field val })
    else if is_name key (codes "enable_views")
    then some (record conf { enable_views = parse_bool val })
    else if is_name key (codes "enable_metrics")
    then some (record conf { enable_metrics = parse_bool val })
    else if is_name key (codes "enable_networking")
    then some (record conf { enable_networking = parse_bool val })
    else if is_name key (codes "enable_man")
    then some (record conf { enable_man = parse_bool val })
    else if is_name key (codes "enable_packages")
    then some (record conf { enable_packages = parse_bool val })
    else none

-- The key up to the first space, and what follows that space if there is one.
unfoldable pub split_key : Bytes → Bytes × Option Bytes
split_key [] = ([], none)
split_key (c ∷ s) =
    let rest = split_key s in if isspace c then ([], some s) else (c ∷ rest.0, rest.1)

abbrev pub apply_split : MiniwebConf → Bytes × Option Bytes → Option MiniwebConf
apply_split conf (key, none) = none
apply_split conf (key, some val) = conf_apply_kv conf key (ltrim val)

unfoldable pub apply_line : MiniwebConf → Bytes → Option MiniwebConf
apply_line conf [] = some conf
apply_line conf (c ∷ s) = if c == b'#' then some conf else apply_split conf (split_key (c ∷ s))

-- `none` is the result -1. The line is what stands before the first NUL of the buffer.
unfoldable pub conf_parse_line : MiniwebConf → Bytes → Option MiniwebConf
unfolding apply_line
conf_parse_line conf line = apply_line conf (rtrim (ltrim (c_string line)))

-- The size of `line`.
abbrev pub line_size : ℕ
line_size = 512

-- `fgets` with room for `n` bytes: the text up to and with the first newline, and the rest.
unfoldable pub fgets : ℕ → Bytes → Bytes × Bytes
fgets zero text = ([], text)
fgets (suc n) [] = ([], [])
fgets (suc n) (c ∷ text) =
    let rest = fgets n text in if c == 10 then (c ∷ [], text) else (c ∷ rest.0, rest.1)

-- How the loop over the lines goes: a line is refused, the file is read, or the rounds that were given
-- have run out before its end.
pub data Parsed : Type 0 where
  refused unfinished : Parsed
  parsed : MiniwebConf → Parsed

-- After a result -1 the loop is left.
infixl 5 ◌>>=◌
abbrev pub ◌>>=◌ : Option MiniwebConf → (MiniwebConf → Parsed) → Parsed
none >>= f = refused
some conf >>= f = f conf

-- The loop over the lines.
unfoldable pub parse_lines : ℕ → MiniwebConf → Bytes → Parsed
parse_lines fuel conf [] = parsed conf
parse_lines zero conf (c ∷ text) = unfinished
parse_lines (suc fuel) conf (c ∷ text) =
    let (line, rest) = fgets (line_size - 1) (c ∷ text) in
    conf_parse_line conf line >>= λ conf'. parse_lines fuel conf' rest

-- The results 1, -1 and 0.
pub data Loaded : Type 0 where
  not_found invalid : Loaded
  loaded : MiniwebConf → Loaded

-- The rounds that `conf_parse_file` gives do not run out.
unfoldable pub validated : Parsed → Loaded
validated refused = invalid
validated unfinished = invalid
validated (parsed conf) = if conf_validate conf then loaded conf else invalid

unfoldable pub conf_parse_file : Option Bytes → MiniwebConf → Loaded
unfolding validated
conf_parse_file none conf = not_found
conf_parse_file (some text) conf = validated (parse_lines (length text) conf text)

-- A name of a file and what it holds.
abbrev pub Files : Type 0
Files = Bytes → Option Bytes

-- What follows a candidate: the next one only if there is no such file.
abbrev pub or_next : Loaded → Option MiniwebConf → Option MiniwebConf
or_next (loaded conf) next = some conf
or_next invalid next = none
or_next not_found next = next

-- The loop over the candidates, `none` being a NULL one.
unfoldable pub try_candidates : Files → MiniwebConf → List (Option Bytes) → Option MiniwebConf
try_candidates files conf [] = some conf
try_candidates files conf (none ∷ paths) = try_candidates files conf paths
try_candidates files conf (some path ∷ paths) =
    or_next (conf_parse_file (files path) conf) (try_candidates files conf paths)

abbrev pub home_candidate : Option Bytes → Option Bytes
home_candidate none = none
home_candidate (some home) = some (field (home ++ codes "/.miniweb.conf"))

abbrev pub candidates : Option Bytes → List (Option Bytes)
candidates home =
    some (codes "./miniweb.conf") ∷ home_candidate home ∷ some (codes "/etc/miniweb.conf") ∷ []

abbrev pub from_named : Loaded → Option MiniwebConf
from_named not_found = none
from_named invalid = none
from_named (loaded conf) = some conf

-- `none` is the result -1, and `home` is the environment's `HOME`.
unfoldable pub conf_load : Files → Option Bytes → Option Bytes → MiniwebConf → Option MiniwebConf
unfolding try_candidates
conf_load files home (some path) conf = from_named (conf_parse_file (files path) conf)
conf_load files home none conf = try_candidates files conf (candidates home)
