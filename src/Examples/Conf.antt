-- ===== src/Examples/Conf.antt =====
use miniweb.Prelude.{
  ◌⊎◌, ◌≡◌, refl, List, [], ◌∷◌, none, some, Bytes, codes, pos, arith, atoi, digits_value,
}
use miniweb.Core.Conf.{MiniwebConf, conf_defaults, conf_default_threads, conf_apply_cli}
use miniweb.Core.Conf.Parse.{
  Files, conf_parse_file, refused, parsed, parse_lines, validated, conf_load,
}
use miniweb.Core.Conf.Parse.Rounds.{lines_text, apply_lines, parse_lines-ends, parse_file-by_lines}
use miniweb.Program.{p, goes_on, set_option, set_options, clamp, parse_args}
use miniweb.Program.Bounds.{IsUsable, parse_args-IsUsable}

abbrev defaults : MiniwebConf
defaults = conf_defaults (pos 2)

abbrev lines : List Bytes
lines = codes "port 80" ∷ codes "# end" ∷ []

parse_file-by_lines_example :
    conf_parse_file (some (lines_text lines)) defaults ≡ validated (apply_lines defaults lines)
parse_file-by_lines_example = parse_file-by_lines defaults lines (
  (
    (
      ground arith,
      (
        ground arith,
        (ground arith, (ground arith, (ground arith, (ground arith, (ground arith, tt))))),
      ),
    ),
    omega arith,
  ),
  (
    (
      (ground arith, (ground arith, (ground arith, (ground arith, (ground arith, tt))))),
      omega arith,
    ),
    tt,
  ),
)

-- No file exists.
abbrev no_files : Files
no_files path = none

abbrev chosen : MiniwebConf
chosen = clamp (record defaults { port = pos 8080 })

starts : parse_args (pos 2) no_files none (p (codes "8080") ∷ []) ≡ goes_on chosen
unfolding parse_args set_options set_option conf_load conf_defaults conf_default_threads
    conf_parse_file conf_apply_cli clamp atoi digits_value
starts = refl

parse_args-IsUsable_example : IsUsable chosen
parse_args-IsUsable_example =
    parse_args-IsUsable (pos 2) no_files none (p (codes "8080") ∷ []) chosen starts

parse_lines-ends_example :
    (parse_lines 20 defaults (lines_text lines) ≡ refused)
    ⊎ ((conf : MiniwebConf) × (parse_lines 20 defaults (lines_text lines) ≡ parsed conf))
parse_lines-ends_example = parse_lines-ends 20 defaults (lines_text lines) (omega arith)
