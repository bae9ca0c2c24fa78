-- ===== src/Core/Conf.antt =====
-- src/core/conf_defaults.c, conf_validation.c and include/miniweb/core/conf.h: the configuration.
pub mod Parse
use miniweb.Prelude.{
  ℕ, ◌-◌, Bool, true, false, not, ◌&&◌, ◌||◌, Option, none, some, List, [], ◌∷◌, Bytes, codes, ltb,
  take, if◌then◌else◌, ℤ, pos, negsuc, at_most_zero, exceeds,
}

-- CONF_STR_MAX
abbrev pub str_max : ℕ
str_max = 256

-- MINIWEB_THREAD_POOL_SIZE
abbrev pub thread_pool_size : ℕ
thread_pool_size = 32

-- `miniweb_conf_t`; the switches are `int` values that are only tested.
pub record MiniwebConf : Type 0 where
  pub port : ℤ
  pub bind_addr : Bytes
  pub threads : ℤ
  pub max_conns : ℤ
  pub conn_timeout : ℤ
  pub max_req_size : ℤ
  pub mandoc_timeout : ℤ
  pub static_dir : Bytes
  pub templates_dir : Bytes
  pub autoindex : Bool
  pub mandoc_path : Bytes
  pub trusted_proxy : Bytes
  pub verbose : Bool
  pub log_file : Bytes
  pub enable_views : Bool
  pub enable_metrics : Bool
  pub enable_networking : Bool
  pub enable_man : Bool
  pub enable_packages : Bool

-- What `strlcpy` leaves in a field.
abbrev pub field : Bytes → Bytes
field s = take (str_max - 1) s

-- The argument is the result of `sysconf`.
unfoldable pub conf_default_threads : ℤ → ℤ
conf_default_threads cores =
    if at_most_zero cores
    then pos 4
    else if exceeds cores thread_pool_size
    then pos thread_pool_size
    else cores

unfoldable pub conf_defaults : ℤ → MiniwebConf
unfolding conf_default_threads
conf_defaults cores = record {
  port = pos 9001;
  bind_addr = codes "127.0.0.1";
  threads = conf_default_threads cores;
  max_conns = pos 1280;
  conn_timeout = pos 30;
  max_req_size = pos 16384;
  mandoc_timeout = pos 10;
  static_dir = codes "static";
  templates_dir = codes "templates";
  autoindex = false;
  mandoc_path = codes "/usr/bin/mandoc";
  trusted_proxy = codes "127.0.0.1";
  verbose = false;
  log_file = [];
  enable_views = true;
  enable_metrics = true;
  enable_networking = true;
  enable_man = true;
  enable_packages = true;
}

-- `true` is the result 0.
unfoldable pub conf_validate : MiniwebConf → Bool
conf_validate conf =
    if at_most_zero conf.port || exceeds conf.port 65535
    then false
    else if at_most_zero conf.threads
    then false
    else if at_most_zero conf.max_conns
    then false
    else if at_most_zero conf.conn_timeout
    then false
    else if at_most_zero conf.max_req_size
    then false
    else if at_most_zero conf.mandoc_timeout
    then false
    else true

-- What the command line gives: -1 and NULL stand for what it does not give.
pub record Cli : Type 0 where
  pub cli_port : ℤ
  pub cli_bind : Option Bytes
  pub cli_threads : ℤ
  pub cli_max_conns : ℤ
  pub cli_log_file : Option Bytes
  pub cli_verbose : Bool

abbrev pub if_positive : ℤ → ℤ → ℤ
if_positive value other = if at_most_zero value then other else value

abbrev pub if_given : Option Bytes → Bytes → Bytes
if_given none other = other
if_given (some s) other = field s

unfoldable pub conf_apply_cli : MiniwebConf → Cli → MiniwebConf
conf_apply_cli conf cli = record conf {
  port = if_positive cli.cli_port conf.port;
  bind_addr = if_given cli.cli_bind conf.bind_addr;
  threads = if_positive cli.cli_threads conf.threads;
  max_conns = if_positive cli.cli_max_conns conf.max_conns;
  log_file = if_given cli.cli_log_file conf.log_file;
  verbose = if cli.cli_verbose then true else conf.verbose;
}
