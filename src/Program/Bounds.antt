-- ===== src/Program/Bounds.antt =====
-- The bounds that the rest of the program relies on.
use miniweb.Prelude.{
  ℕ, zero, suc, ◌≤◌, ◌≡◌, ◌⊎◌, refl, true, false, Option, none, some, List, [], ◌∷◌, Bytes, arith,
  Bool-cases, if_both, subst, inl, inr, ℤ, pos, negsuc, at_most_zero, exceeds,
}
use miniweb.Core.Conf.{
  MiniwebConf, Cli, conf_default_threads, conf_defaults, conf_validate, conf_apply_cli, if_positive,
  thread_pool_size,
}
use miniweb.Core.Conf.Parse.{
  Files, Parsed, refused, unfinished, parsed, Loaded, not_found, invalid, loaded, validated,
  conf_parse_file, or_next, try_candidates, from_named, candidates, conf_load,
}
use miniweb.Net.ConnectionPool.{max_connections, request_buffer_size}
use miniweb.Program.{
  Opt, no_args, Started, exits, goes_on, set_options, at_most, at_least_one, clamp, parse_args,
  or_exit, ◌>>=◌,
}

-- Between 1 and `bound`.
abbrev pub Within : ℕ → ℤ → Type 0
Within bound value = (n : ℕ) × (value ≡ pos n) × (1 ≤ n) × (n ≤ bound)

abbrev pub IsPositive : ℤ → Type 0
IsPositive value = (n : ℕ) × (value ≡ pos n) × (1 ≤ n)

pub record IsUsable (conf : MiniwebConf) : Type 0 where
  pub port : IsPositive conf.port
  pub threads : Within thread_pool_size conf.threads
  pub max_conns : Within max_connections conf.max_conns
  pub max_req_size : Within request_buffer_size conf.max_req_size
  pub conn_timeout : IsPositive conf.conn_timeout
  pub mandoc_timeout : IsPositive conf.mandoc_timeout

-- What `conf_validate` accepts.
record IsAccepted (conf : MiniwebConf) : Type 0 where
  pub port : IsPositive conf.port
  pub threads : IsPositive conf.threads
  pub max_conns : IsPositive conf.max_conns
  pub max_req_size : IsPositive conf.max_req_size
  pub conn_timeout : IsPositive conf.conn_timeout
  pub mandoc_timeout : IsPositive conf.mandoc_timeout

positive : (value : ℤ) → at_most_zero value ≡ false → IsPositive value
positive (pos zero) h = cc
positive (pos (suc n)) h = (suc n, refl, omega arith)
positive (negsuc n) h = cc

at_most-Within :
    (value : ℤ) (bound : ℕ) → IsPositive value → 1 ≤ bound → Within bound (at_most value bound)
at_most-Within value bound (n, e, h) k = rw e (elim (Bool-cases (exceeds (pos n) bound)) [
  | inl more ↦ rw more (bound, refl, k, omega arith)
  | inr less ↦ rw less (n, refl, h, ground (arith, less))
])

if_positive-IsPositive : (value other : ℤ) → IsPositive other → IsPositive (if_positive value other)
if_positive-IsPositive (pos zero) other h = h
if_positive-IsPositive (pos (suc n)) other h = (suc n, refl, omega arith)
if_positive-IsPositive (negsuc n) other h = h

at_least_one-IsPositive : (value : ℤ) → IsPositive (at_least_one value)
at_least_one-IsPositive (pos zero) = (1, refl, omega arith)
at_least_one-IsPositive (pos (suc n)) = (suc n, refl, omega arith)
at_least_one-IsPositive (negsuc n) = (1, refl, omega arith)

validate-IsAccepted : (conf : MiniwebConf) → conf_validate conf ≡ true → IsAccepted conf
unfolding conf_validate
validate-IsAccepted conf h = record {
  port = positive conf.port (ground arith);
  threads = positive conf.threads (ground arith);
  max_conns = positive conf.max_conns (ground arith);
  max_req_size = positive conf.max_req_size (ground arith);
  conn_timeout = positive conf.conn_timeout (ground arith);
  mandoc_timeout = positive conf.mandoc_timeout (ground arith);
}

default_threads-IsPositive : (cores : ℤ) → IsPositive (conf_default_threads cores)
unfolding conf_default_threads
default_threads-IsPositive cores = elim (Bool-cases (at_most_zero cores)) [
  | inl few ↦ rw few (4, refl, omega arith)
  | inr some_cores ↦ rw some_cores (
      if_both IsPositive (exceeds cores thread_pool_size) _ _ (32, refl, omega arith)
        (positive cores some_cores))
]

defaults-IsAccepted : (cores : ℤ) → IsAccepted (conf_defaults cores)
unfolding conf_defaults
defaults-IsAccepted cores = record {
  port = (9001, refl, omega arith);
  threads = default_threads-IsPositive cores;
  max_conns = (1280, refl, omega arith);
  max_req_size = (16384, refl, omega arith);
  conn_timeout = (30, refl, omega arith);
  mandoc_timeout = (10, refl, omega arith);
}

validated-IsAccepted :
    (o : Parsed) (conf : MiniwebConf) → validated o ≡ loaded conf → IsAccepted conf
unfolding validated
validated-IsAccepted refused conf h = cc
validated-IsAccepted unfinished conf h = cc
validated-IsAccepted (parsed c) conf h = elim (Bool-cases (conf_validate c)) [
  | inl ok ↦ validate-IsAccepted conf (ground (arith, ok))
  | inr bad ↦ cc (bad)
]

parse_file-IsAccepted :
    (text : Option Bytes) (start conf : MiniwebConf)
    → conf_parse_file text start ≡ loaded conf
    → IsAccepted conf
unfolding conf_parse_file
parse_file-IsAccepted none start conf h = cc
parse_file-IsAccepted (some text) start conf h = validated-IsAccepted _ conf h

or_next-cases :
    (r : Loaded) (next : Option MiniwebConf) (conf : MiniwebConf)
    → or_next r next ≡ some conf
    → (r ≡ loaded conf) ⊎ (next ≡ some conf)
or_next-cases not_found next conf h = inr h
or_next-cases invalid next conf h = cc
or_next-cases (loaded c) next conf h = inl (cc)

from_named-eq : (r : Loaded) (conf : MiniwebConf) → from_named r ≡ some conf → r ≡ loaded conf
from_named-eq not_found conf h = cc
from_named-eq invalid conf h = cc
from_named-eq (loaded c) conf h = cc

candidates-IsAccepted :
    (files : Files) (paths : List (Option Bytes)) (start conf : MiniwebConf)
    → IsAccepted start
    → try_candidates files start paths ≡ some conf
    → IsAccepted conf
unfolding try_candidates
candidates-IsAccepted files [] start conf v h = subst IsAccepted (cc) v
candidates-IsAccepted files (none ∷ paths) start conf v h =
    candidates-IsAccepted files paths start conf v h
candidates-IsAccepted files (some path ∷ paths) start conf v h =
    elim (or_next-cases (conf_parse_file (files path) start) _ conf h) [
      | inl here ↦ parse_file-IsAccepted (files path) start conf here
      | inr later ↦ candidates-IsAccepted files paths start conf v later
    ]

load-IsAccepted :
    (files : Files) (home path : Option Bytes) (start conf : MiniwebConf)
    → IsAccepted start
    → conf_load files home path start ≡ some conf
    → IsAccepted conf
unfolding conf_load
load-IsAccepted files home (some path) start conf v h =
    parse_file-IsAccepted (files path) start conf
      (from_named-eq (conf_parse_file (files path) start) conf h)
load-IsAccepted files home none start conf v h =
    candidates-IsAccepted files (candidates home) start conf v h

clamp-IsUsable :
    (conf : MiniwebConf) (cli : Cli) → IsAccepted conf → IsUsable (clamp (conf_apply_cli conf cli))
unfolding clamp conf_apply_cli
clamp-IsUsable conf cli v = record {
  port = if_positive-IsPositive cli.cli_port conf.port v.port;
  threads =
      at_most-Within _ thread_pool_size
        (at_least_one-IsPositive (if_positive cli.cli_threads conf.threads)) (omega arith);
  max_conns =
      at_most-Within _ max_connections
        (if_positive-IsPositive cli.cli_max_conns conf.max_conns v.max_conns) (omega arith);
  max_req_size = at_most-Within conf.max_req_size request_buffer_size v.max_req_size (omega arith);
  conn_timeout = v.conn_timeout;
  mandoc_timeout = v.mandoc_timeout;
}

goes_on-eq :
    {A B : Type 0} (m : Started A) (k : A → Started B) (r : B)
    → (m >>= k) ≡ goes_on r
    → (a : A) × (m ≡ goes_on a) × (k a ≡ goes_on r)
goes_on-eq (exits status) k r h = cc
goes_on-eq (goes_on a) k r h = (a, refl, h)

or_exit-eq :
    (o : Option MiniwebConf) (conf : MiniwebConf) → or_exit o ≡ goes_on conf → o ≡ some conf
or_exit-eq none conf h = cc
or_exit-eq (some c) conf h = cc

-- Whatever the options, the environment, the files and the number of cores are, if the program starts
-- then with 1 to 32 threads, 1 to 4,096 connections, requests of 1 to 16,384 bytes, positive times, and
-- a positive port.
pub parse_args-IsUsable :
    (cores : ℤ) (files : Files) (home : Option Bytes) (os : List Opt) (conf : MiniwebConf)
    → parse_args cores files home os ≡ goes_on conf
    → IsUsable conf
unfolding parse_args
parse_args-IsUsable cores files home os conf h =
    let (args, set, rest) = goes_on-eq (set_options no_args os) _ conf h in
    let (start, found, last) =
      goes_on-eq (or_exit (conf_load files home args.conf_file (conf_defaults cores))) _ conf
        rest in
    let accepted =
      load-IsAccepted files home args.conf_file (conf_defaults cores) start
        (defaults-IsAccepted cores) (or_exit-eq _ start found) in
    subst IsUsable (cc) (clamp-IsUsable start args.cli accepted)
