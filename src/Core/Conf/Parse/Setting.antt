-- ===== src/Core/Conf/Parse/Setting.antt =====
-- The keys of a configuration file, with the fields of src/core/conf.c that each of them stands for and
-- what a file may say of it.
use miniweb.Prelude.{ℕ, ◌<◌, Bool, true, false, Bytes, codes, length, decimal, pos}
use miniweb.Core.Conf.{MiniwebConf, str_max}
use miniweb.Core.Conf.Parse.Lines.{IsValue}

-- A key with its value.
pub data Setting : Type 0 where
  sets_port sets_threads sets_max_conns sets_conn_timeout sets_max_req_size sets_mandoc_timeout :
      ℕ → Setting
  sets_bind_addr sets_static_dir sets_templates_dir sets_mandoc_path sets_trusted_proxy
        sets_log_file :
      Bytes → Setting
  sets_autoindex sets_verbose sets_enable_views sets_enable_metrics sets_enable_networking
        sets_enable_man sets_enable_packages :
      Bool → Setting

abbrev pub key_of : Setting → Bytes
key_of (sets_port v) = codes "port"
key_of (sets_threads v) = codes "threads"
key_of (sets_max_conns v) = codes "max_conns"
key_of (sets_conn_timeout v) = codes "conn_timeout"
key_of (sets_max_req_size v) = codes "max_req_size"
key_of (sets_mandoc_timeout v) = codes "mandoc_timeout"
key_of (sets_bind_addr v) = codes "bind_addr"
key_of (sets_static_dir v) = codes "static_dir"
key_of (sets_templates_dir v) = codes "templates_dir"
key_of (sets_mandoc_path v) = codes "mandoc_path"
key_of (sets_trusted_proxy v) = codes "trusted_proxy"
key_of (sets_log_file v) = codes "log_file"
key_of (sets_autoindex v) = codes "autoindex"
key_of (sets_verbose v) = codes "verbose"
key_of (sets_enable_views v) = codes "enable_views"
key_of (sets_enable_metrics v) = codes "enable_metrics"
key_of (sets_enable_networking v) = codes "enable_networking"
key_of (sets_enable_man v) = codes "enable_man"
key_of (sets_enable_packages v) = codes "enable_packages"

abbrev pub flag_text : Bool → Bytes
flag_text true = codes "yes"
flag_text false = codes "no"

abbrev pub value_of : Setting → Bytes
value_of (sets_port n) = decimal n
value_of (sets_threads n) = decimal n
value_of (sets_max_conns n) = decimal n
value_of (sets_conn_timeout n) = decimal n
value_of (sets_max_req_size n) = decimal n
value_of (sets_mandoc_timeout n) = decimal n
value_of (sets_bind_addr text) = text
value_of (sets_static_dir text) = text
value_of (sets_templates_dir text) = text
value_of (sets_mandoc_path text) = text
value_of (sets_trusted_proxy text) = text
value_of (sets_log_file text) = text
value_of (sets_autoindex flag) = flag_text flag
value_of (sets_verbose flag) = flag_text flag
value_of (sets_enable_views flag) = flag_text flag
value_of (sets_enable_metrics flag) = flag_text flag
value_of (sets_enable_networking flag) = flag_text flag
value_of (sets_enable_man flag) = flag_text flag
value_of (sets_enable_packages flag) = flag_text flag

-- The configuration with this one field changed.
abbrev pub with_setting : Setting → MiniwebConf → MiniwebConf
with_setting (sets_port n) conf = record conf { port = pos n }
with_setting (sets_threads n) conf = record conf { threads = pos n }
with_setting (sets_max_conns n) conf = record conf { max_conns = pos n }
with_setting (sets_conn_timeout n) conf = record conf { conn_timeout = pos n }
with_setting (sets_max_req_size n) conf = record conf { max_req_size = pos n }
with_setting (sets_mandoc_timeout n) conf = record conf { mandoc_timeout = pos n }
with_setting (sets_bind_addr text) conf = record conf { bind_addr = text }
with_setting (sets_static_dir text) conf = record conf { static_dir = text }
with_setting (sets_templates_dir text) conf = record conf { templates_dir = text }
with_setting (sets_mandoc_path text) conf = record conf { mandoc_path = text }
with_setting (sets_trusted_proxy text) conf = record conf { trusted_proxy = text }
with_setting (sets_log_file text) conf = record conf { log_file = text }
with_setting (sets_autoindex flag) conf = record conf { autoindex = flag }
with_setting (sets_verbose flag) conf = record conf { verbose = flag }
with_setting (sets_enable_views flag) conf = record conf { enable_views = flag }
with_setting (sets_enable_metrics flag) conf = record conf { enable_metrics = flag }
with_setting (sets_enable_networking flag) conf = record conf { enable_networking = flag }
with_setting (sets_enable_man flag) conf = record conf { enable_man = flag }
with_setting (sets_enable_packages flag) conf = record conf { enable_packages = flag }

-- A text that fits its field.
abbrev pub FitsField : Bytes → Type 0
FitsField text = IsValue text × (length text < str_max)

abbrev pub IsSettable : Setting → Type 0
IsSettable (sets_port n) = Unit
IsSettable (sets_threads n) = Unit
IsSettable (sets_max_conns n) = Unit
IsSettable (sets_conn_timeout n) = Unit
IsSettable (sets_max_req_size n) = Unit
IsSettable (sets_mandoc_timeout n) = Unit
IsSettable (sets_bind_addr text) = FitsField text
IsSettable (sets_static_dir text) = FitsField text
IsSettable (sets_templates_dir text) = FitsField text
IsSettable (sets_mandoc_path text) = FitsField text
IsSettable (sets_trusted_proxy text) = FitsField text
IsSettable (sets_log_file text) = FitsField text
IsSettable (sets_autoindex flag) = Unit
IsSettable (sets_verbose flag) = Unit
IsSettable (sets_enable_views flag) = Unit
IsSettable (sets_enable_metrics flag) = Unit
IsSettable (sets_enable_networking flag) = Unit
IsSettable (sets_enable_man flag) = Unit
IsSettable (sets_enable_packages flag) = Unit
