-- ===== src/Script/Run/Lines.antt =====
-- A script as a list of lines: `parse_string` of src/vtc.c runs them one after the other.
use vtest.Base.{
  ℕ, zero, suc, ◌≤◌, ◌<◌, ◌≡◌, ◌≢◌, refl, ap, List, [], ◌∷◌, ◌++◌, Bytes, length, map,
  length-append, false, ◌||◌, ◌==◌, if◌then◌else◌, Option, Outcome, ret, aborted, undefined, ◌>>=◌,
  arith, All,
}
use vtest.Script.Run.{Cmds, Calls, Session, run_line, parse_loop, parse_string}
use vtest.Script.Tokens.{
  Token, word, quoted, block, text, line, IsToken, length-line, read_line-line,
}
use vtest.Script.{is_space, max_tokens}

-- The first byte is not that of a comment.
abbrev StartsLine : List Token → Type 0
StartsLine [] = ⊥
StartsLine (word (c ∷ cs) ∷ ts) = c ≢ 35
StartsLine (_ ∷ ts) = Unit

-- A line with a token at least, and fewer than 200
abbrev pub IsLine : List Token → Type 0
IsLine ts = StartsLine ts × All IsToken ts × (length ts < max_tokens)

abbrev pub script : List (List Token) → Bytes
script [] = []
script (ts ∷ lines) = line ts ++ script lines

bind_cong :
    {A B : Type 0} (m : Outcome A) (f g : A → Outcome B)
    → ((a : A) → f a ≡ g a)
    → (m >>= f) ≡ (m >>= g)
bind_cong (ret a) f g h = h a
bind_cong aborted f g h = refl
bind_cong undefined f g h = refl

-- A line begins with a byte that is neither a space nor the start of a comment.
line_head :
    (ts : List Token) (rest : Bytes)
    → IsLine ts
    → (c : ℕ) × (cs : Bytes) × (line ts ++ rest ≡ c ∷ cs) × (is_space c ≡ false) × (c ≢ 35)
line_head [] rest (start, h, few) = elim start [ ]
line_head (word [] ∷ ts) rest (start, ((none_there, h), hs), few) = elim none_there [ ]
line_head (word (c ∷ cs) ∷ ts) rest (start, ((begins, (no_space, h)), hs), few) =
    (c, (cs ++ 32 ∷ line ts) ++ rest, refl, no_space, start)
line_head (quoted bs ∷ ts) rest h =
    (34, ((bs ++ 34 ∷ []) ++ 32 ∷ line ts) ++ rest, refl, refl, omega arith)
line_head (block bs ∷ ts) rest h =
    (123, ((bs ++ 125 ∷ []) ++ 32 ∷ line ts) ++ rest, refl, refl, omega arith)

module _ (World : Type 0) (calls : Calls World) (own : Option (List (Cmds World))) where
  open calls use {vtc_error, vtc_stop, back_slash}

  -- The lines run in order, until the test ends or fails.
  pub run_lines :
      (Session World calls → Bytes → Outcome (Session World calls))
      → List (List Token)
      → Session World calls
      → Outcome (Session World calls)
  run_lines again [] ss = ret ss
  run_lines again (ts ∷ lines) ss =
      let others = run_line World calls own again (map text ts) ss >>= λ r.
      if r.0 then run_lines again lines r.1 else ret r.1 in
      if vtc_error ss.world || vtc_stop ss.world then ret ss else others

  parse_loop-script :
      (again : Session World calls → Bytes → Outcome (Session World calls))
      (lines : List (List Token)) (rounds : ℕ) (ss : Session World calls)
      → All IsLine lines
      → length (script lines) ≤ rounds
      → parse_loop World calls own again rounds ss (script lines) ≡ run_lines again lines ss
  unfolding parse_loop run_lines
  parse_loop-script again [] rounds ss h enough = refl
  parse_loop-script again (ts ∷ lines) zero ss (h, hs) enough =
      absurd (omega (arith, length-line ts h.1, length-append (line ts) (script lines)))
  parse_loop-script again (ts ∷ lines) (suc rounds) ss (h, hs) enough =
      let (c, cs, split, no_space, no_comment) = line_head ts (script lines) h in
      let read = read_line-line back_slash ts (script lines) h.1 h.2 in
      let comment' : (c == 35) ≡ false = ground (arith, no_comment) in
      let read' = rw split at read in
      let left : length (script lines) ≤ rounds =
        omega (arith, enough, length-append (line ts) (script lines), length-line ts h.1) in
      let others =
        bind_cong (run_line World calls own again (map text ts) ss)
          (λ r. if r.0 then parse_loop World calls own again rounds r.1 (script lines) else ret r.1)
          (λ r. if r.0 then run_lines again lines r.1 else ret r.1)
          (λ r.
            ap (λ x. if r.0 then x else ret r.1)
              (parse_loop-script again lines rounds r.1 hs left)) in
      rw (split, no_space, comment', read')
        (ap (λ x. if vtc_error ss.world || vtc_stop ss.world then ret ss else x) others)

  -- A script of lines, each with a token at least and fewer than 200, the first not in the way of a
  -- comment: `parse_string` does what the lines do one after the other, each with its tokens, until
  -- the test fails or ends.
  pub parse_string-script :
      (depth : ℕ) (lines : List (List Token)) (ss : Session World calls)
      → All IsLine lines
      → parse_string World calls own (suc depth) ss (script lines)
        ≡ run_lines (parse_string World calls own depth) lines ss
  unfolding parse_string
  parse_string-script depth lines ss h =
      parse_loop-script (parse_string World calls own depth) lines (length (script lines)) ss h
        (omega arith)
