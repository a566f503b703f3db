-- ===== src/Tests/Scripts.antt =====
-- Scripts at concrete texts.
use vtest.Base.{ℕ, suc, ◌≡◌, List, [], ◌∷◌, ◌++◌, codes, length, map, true, false, none, ret, arith}
use vtest.Script.Run.Lines.{script, run_lines, parse_string-script}
use vtest.Script.Run.{Cmds, Calls, Session, parse_string}
use vtest.Script.Tokens.{Token, word, quoted, block, text, line, read_line-line}
use vtest.Script.{BackSlash, read_line, newline}

abbrev no_escapes : BackSlash
no_escapes cs = none

abbrev tokens : List Token
tokens =
    word (codes "client") ∷ word (codes "c1") ∷ block (codes "tx {a} b") ∷ quoted (codes "x y") ∷ []

read_line-line_example :
    read_line no_escapes
      (length (line tokens ++ codes "next"))
      false
      []
      (line tokens ++ codes "next")
    ≡ ret (map text tokens, newline ∷ codes "next")
read_line-line_example =
    read_line-line no_escapes tokens (codes "next") (ground arith) (omega arith)

-- A world that counts the commands that ran
abbrev counting : Calls ℕ
counting = record {
  vtc_error = λ w. false;
  vtc_stop = λ w. false;
  macro_expand = λ w t. ret (t, w);
  strtoul = λ t. 2;
  back_slash = no_escapes;
  autoload = λ name. none;
}

abbrev count : Cmds ℕ
count = record { name = codes "count"; cmd = λ args w. ret (suc w); is_global = true }

abbrev session : Session ℕ counting
session = record { icmd_list = count ∷ []; world = 0 }

abbrev lines : List (List Token)
lines =
    (word (codes "count") ∷ [])
    ∷ (word (codes "loop") ∷ word (codes "2") ∷ block (codes "count\n") ∷ [])
    ∷ []

parse_string-script_example :
    parse_string ℕ counting none 3 session (script lines)
    ≡ run_lines ℕ counting none (parse_string ℕ counting none 2) lines session
parse_string-script_example = parse_string-script ℕ counting none 2 lines session (ground arith)
