-- ===== src/Program.antt =====
-- src/app_main.c: the configuration that the program runs with.
pub mod Bounds
use miniweb.Prelude.{
  ℕ, zero, suc, Bool, true, false, ◌||◌, Option, none, some, List, [], ◌∷◌, Bytes, if◌then◌else◌, ℤ,
  pos, negsuc, at_most_zero, exceeds, atoi,
}
use miniweb.Core.Conf.{MiniwebConf, Cli, conf_defaults, conf_apply_cli, thread_pool_size}
use miniweb.Core.Conf.Parse.{Files, conf_load}
use miniweb.Net.ConnectionPool.{max_connections, request_buffer_size}

-- What `getopt` finds, with its argument.
pub data Opt : Type 0 where
  f p b t c l : Bytes → Opt
  v h unknown : Opt

-- The local variables of `parse_args`.
pub record Args : Type 0 where
  pub conf_file : Option Bytes
  pub cli : Cli

abbrev pub no_args : Args
no_args = record {
  conf_file = none;
  cli = record {
    cli_port = negsuc 0;
    cli_bind = none;
    cli_threads = negsuc 0;
    cli_max_conns = negsuc 0;
    cli_log_file = none;
    cli_verbose = false;
  };
}

-- How the process goes on: it ends with a status, or there is a result.
pub data Started (A : Type 0) : Type 0 where
  exits : ℕ → Started A
  goes_on : A → Started A

unfoldable pub set_option : Args → Opt → Started Args
set_option args (f arg) = goes_on (record args { conf_file = some arg })
set_option args (p arg) = goes_on (record args { cli = record args.cli { cli_port = atoi arg } })
set_option args (b arg) = goes_on (record args { cli = record args.cli { cli_bind = some arg } })
set_option args (t arg) = goes_on (record args { cli = record args.cli { cli_threads = atoi arg } })
set_option args (c arg) =
    goes_on (record args { cli = record args.cli { cli_max_conns = atoi arg } })
set_option args (l arg) =
    goes_on (record args { cli = record args.cli { cli_log_file = some arg } })
set_option args v = goes_on (record args { cli = record args.cli { cli_verbose = true } })
set_option args h = exits 0
set_option args unknown = exits 1

infixl 5 ◌>>=◌
abbrev pub ◌>>=◌ : {A B : Type 0} → Started A → (A → Started B) → Started B
exits status >>= k = exits status
goes_on a >>= k = k a

-- The loop over the options.
unfoldable pub set_options : Args → List Opt → Started Args
set_options args [] = goes_on args
set_options args (o ∷ os) = set_option args o >>= λ args'. set_options args' os

abbrev pub at_most : ℤ → ℕ → ℤ
at_most value bound = if exceeds value bound then pos bound else value

abbrev pub at_least_one : ℤ → ℤ
at_least_one value = if at_most_zero value then pos 1 else value

-- The four tests after `conf_apply_cli`; `threads < 1` is `threads <= 0`.
unfoldable pub clamp : MiniwebConf → MiniwebConf
clamp conf = record conf {
  threads = at_most (at_least_one conf.threads) thread_pool_size;
  max_conns = at_most conf.max_conns max_connections;
  max_req_size = at_most conf.max_req_size request_buffer_size;
}

abbrev pub or_exit : Option MiniwebConf → Started MiniwebConf
or_exit none = exits 1
or_exit (some conf) = goes_on conf

-- `cores` is the result of `sysconf`; what is left of the call is `config`.
unfoldable pub parse_args : ℤ → Files → Option Bytes → List Opt → Started MiniwebConf
parse_args cores files home os = do
  args ← set_options no_args os
  conf ← or_exit (conf_load files home args.conf_file (conf_defaults cores))
  goes_on (clamp (conf_apply_cli conf args.cli))
