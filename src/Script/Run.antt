-- ===== src/Script/Run.antt =====
-- What `parse_string` of src/vtc.c does with the lines of a script: macros are expanded, and commands run.
-- What commands do to the rest of the program is a `World` that is an argument here, with the macros in it.
pub mod Lines
use vtest.Base.{
  c_string, ℕ, zero, suc, List, [], ◌∷◌, ◌++◌, Bytes, codes, length, Bool, true, false, not, ◌&&◌,
  ◌||◌, ◌==◌, if◌then◌else◌, Option, none, some, Outcome, ret, aborted, undefined, ◌>>=◌,
}
use vtest.Macros.{same_text, find_open}
use vtest.Script.{BackSlash, is_space, read_line, skip_comment}

-- struct cmds: a command with its function, and the flag CMDS_F_GLOBAL
pub record Cmds (World : Type 0) : Type 0 where
  pub name : Bytes
  pub cmd : List Bytes → World → Outcome World
  pub is_global : Bool

-- What the reader uses of the rest: `vtc_error` and `vtc_stop`, `macro_expand`, `strtoul` and
-- `VAV_BackSlash`. `autoload` is `dlopen` of the library for a command, which adds commands to a list.
pub record Calls (World : Type 0) : Type 0 where
  pub vtc_error : World → Bool
  pub vtc_stop : World → Bool
  pub macro_expand : World → Bytes → Outcome (Bytes × World)
  pub strtoul : Bytes → ℕ
  pub back_slash : BackSlash
  pub autoload : Bytes → Option (List (Cmds World) → List (Cmds World))

module _ (World : Type 0) (calls : Calls World) where
  open calls use {vtc_error, vtc_stop, macro_expand, strtoul, back_slash, autoload}

  -- The list of commands and the world
  pub record Session : Type 0 where
    pub icmd_list : List (Cmds World)
    pub world : World

  -- `add_cmd`
  pub add_cmd : Cmds World → List (Cmds World) → List (Cmds World)
  add_cmd c cs = c ∷ cs

  -- The walk over a list of commands to the one of the name
  pub named : List (Cmds World) → Bytes → Option (Cmds World)
  named [] name = none
  named (c ∷ cs) name = let later = named cs name in if same_text name c.name then some c else later

  -- `find_cmd`: a command that is not there may come with a library.
  pub find_cmd : Session → Bytes → Option (Cmds World) × Session
  find_cmd ss name = elim (named ss.icmd_list name) [
    | some c ↦ (some c, ss)
    | none ↦ elim (autoload name) [
      | none ↦ (none, ss)
      | some load ↦
          let list = load ss.icmd_list in (named list name, record ss { icmd_list = list })
    ]
  ]

  -- The command of a line: one of the log's own, or else a command for all; where the log has commands
  -- of its own, it must be global.
  pub choose_cmd : Option (List (Cmds World)) → Session → Bytes → Option (Cmds World) × Session
  choose_cmd none ss name = find_cmd ss name
  choose_cmd (some own) ss name = elim (named own name) [
    | some c ↦ (some c, ss)
    | none ↦
        let (found, ss') = find_cmd ss name in
        (elim found [ none ↦ none | some c ↦ if c.is_global then some c else none ], ss')
  ]

  -- A token with its macros expanded; none where the test failed.
  pub expand_token : Bytes → World → Outcome (Option Bytes × World)
  expand_token t w = elim (find_open t) [
    | none ↦ ret (some t, w)
    | some parts ↦ macro_expand w t >>= λ r. ret ((if vtc_error r.1 then none else some r.0), r.1)
  ]

  abbrev put_token : Bytes → Option (List Bytes) → Option (List Bytes)
  put_token t none = none
  put_token t (some ts) = some (t ∷ ts)

  -- The tokens with their macros expanded, in order; none where the test failed in between.
  pub expand_tokens : List Bytes → World → Outcome (Option (List Bytes) × World)
  expand_tokens [] w = ret (some [], w)
  expand_tokens (t ∷ ts) w = do
    now ← expand_token (c_string t) w
    elim now.0 [
      | none ↦ ret (none, now.1)
      | some t' ↦ expand_tokens ts now.1 >>= λ r. ret (put_token t' r.0, r.1)
    ]

  -- `loop`: the text is run as often as the number says, and `again` is `parse_string` itself.
  pub loop_spec : (Session → Bytes → Outcome Session) → Bytes → ℕ → Session → Outcome Session
  loop_spec again spec zero ss = ret ss
  loop_spec again spec (suc n) ss =
      let more = again ss spec >>= loop_spec again spec n in
      if vtc_error ss.world || vtc_stop ss.world then ret ss else more

  -- The words of `loop`: a word that is missing is a NULL pointer, for `strtoul` or for the `AN` of
  -- `parse_string`.
  pub run_loop : (Session → Bytes → Outcome Session) → List Bytes → Session → Outcome Session
  run_loop again [] ss = undefined
  run_loop again (n ∷ []) ss =
      if strtoul n == 0 || (vtc_error ss.world || vtc_stop ss.world) then ret ss else aborted
  run_loop again (n ∷ spec ∷ args) ss = loop_spec again spec (strtoul n) ss

  -- A line by its tokens: no token at all is a NULL pointer for `strcmp`.
  pub run_tokens :
      Option (List (Cmds World))
      → (Session → Bytes → Outcome Session)
      → List Bytes
      → Session
      → Outcome Session
  run_tokens own again [] ss = undefined
  run_tokens own again (t ∷ args) ss =
      let chosen = choose_cmd own ss t in
      let command : Outcome Session = elim chosen.0 [
        | none ↦ aborted
        | some c ↦ c.cmd (t ∷ args) chosen.1.world >>= λ w. ret (record chosen.1 { world = w })
      ] in
      if same_text t (codes "loop") then run_loop again args ss else command

  -- The rest of a line of the script. The function ends where the test failed in an expansion.
  pub run_line :
      Option (List (Cmds World))
      → (Session → Bytes → Outcome Session)
      → List Bytes
      → Session
      → Outcome (Bool × Session)
  run_line own again tokens ss = do
    expanded ← expand_tokens tokens ss.world
    let ss' = record ss { world = expanded.1 }
    elim expanded.0 [
      | none ↦ ret (false, ss')
      | some ts ↦ run_tokens own again ts ss' >>= λ ss''. ret (true, ss'')
    ]

  abbrev stops : Session → Bool
  stops ss = vtc_error ss.world || vtc_stop ss.world

  abbrev past_newline : Bytes → Bytes
  past_newline [] = []
  past_newline (c ∷ cs) = cs

  -- The loop of `parse_string` over the text. A round takes a byte at least.
  pub parse_loop :
      Option (List (Cmds World))
      → (Session → Bytes → Outcome Session)
      → ℕ
      → Session
      → Bytes
      → Outcome Session
  parse_loop own again rounds ss [] = ret ss
  parse_loop own again zero ss (c ∷ cs) = aborted
  parse_loop own again (suc rounds) ss (c ∷ cs) =
      let go_on = λ (ss' : Session) (text : Bytes). parse_loop own again rounds ss' text in
      let line = (do
        (tokens, rest) ← read_line back_slash (length (c ∷ cs)) false [] (c ∷ cs)
        (alive, ss') ← run_line own again tokens ss
        if alive then go_on ss' (past_newline rest) else ret ss') in
      if stops ss
      then ret ss
      else if is_space c
      then go_on ss cs
      else if c == 35
      then go_on ss (past_newline (skip_comment cs))
      else line

  -- `parse_string`, where `loop` may nest so deep.
  pub parse_string : Option (List (Cmds World)) → ℕ → Session → Bytes → Outcome Session
  parse_string own zero ss spec = undefined
  parse_string own (suc depth) ss spec =
      parse_loop own (parse_string own depth) (length spec) ss spec
