-- ===== src/Script.antt =====
-- The reader of test scripts: how `parse_string` of src/vtc.c splits the text into the tokens of a line.
-- Texts are C strings: no byte of theirs is 0. `VAV_BackSlash` comes from the library of the Varnish
-- project, and is an argument here.
pub mod Tokens
pub mod Run
use vtest.Base.{
  ℕ, zero, suc, ◌+◌, ◌-◌, List, [], ◌∷◌, ◌++◌, Bytes, length, Bool, true, false, not, ◌&&◌, ◌||◌,
  ◌==◌, ltb, leb, if◌then◌else◌, Option, none, some, Outcome, ret, aborted, undefined, ◌>>=◌,
}

-- isspace in the C locale
abbrev pub is_space : ℕ → Bool
is_space c = (leb 9 c && leb c 13) || c == 32

abbrev pub newline : ℕ
newline = 10

-- `VAV_BackSlash` on the text from the backslash on: how many bytes the escape takes, and the byte that
-- it stands for; none where it is no escape.
abbrev pub BackSlash : Type 0
BackSlash = Bytes → Option (ℕ × ℕ)

-- A token that was read, and the text behind it. `broken` says that an escape was none: the reader then
-- goes on behind its backslash, and puts the terminator of the token over the next byte.
pub record Taken : Type 0 where
  pub token : Bytes
  pub broken : Bool
  pub rest : Bytes

abbrev pub taken : Bytes → Bool → Bytes → Taken
taken token broken rest = record { token = token; broken = broken; rest = rest }

abbrev is_nil : Bytes → Bool
is_nil [] = true
is_nil (c ∷ cs) = false

-- The loop over a quoted token, with the number of bytes that belong to an escape still. A backslash
-- that is the last byte of the text keeps `p` in place for ever, while `q` leaves the buffer.
pub read_quoted : BackSlash → Bytes → ℕ → Bytes → Outcome Taken
read_quoted esc token skip [] = aborted
read_quoted esc token (suc skip) (c ∷ cs) = read_quoted esc token skip cs
read_quoted esc token zero (c ∷ cs) =
    let plain = read_quoted esc (token ++ c ∷ []) 0 cs in
    let escape : Outcome Taken = elim (esc (c ∷ cs)) [
      | none ↦ if is_nil cs then undefined else ret (taken token true cs)
      | some (taking, byte) ↦ read_quoted esc (token ++ byte ∷ []) (taking - 1) cs
    ] in
    if c == 34
    then ret (taken token false cs)
    else if c == 92
    then escape
    else if c == newline
    then aborted
    else plain

-- The loop over a token in braces, behind the first, with the number of braces that are open
pub read_braces : ℕ → Bytes → Bytes → Outcome Taken
read_braces nest_brace token [] = aborted
read_braces nest_brace token (c ∷ cs) =
    let opened = read_braces (suc nest_brace) (token ++ c ∷ []) cs in
    let closed = read_braces (nest_brace - 1) (token ++ c ∷ []) cs in
    let plain = read_braces nest_brace (token ++ c ∷ []) cs in
    if c == 123
    then opened
    else if c == 125
    then (if nest_brace == 1 then ret (taken token false cs) else closed)
    else plain

-- The loop over another token
pub read_word : Bytes → Bytes → Taken
read_word token [] = taken token false []
read_word token (c ∷ cs) =
    let more = read_word (token ++ c ∷ []) cs in
    if is_space c then taken token false (c ∷ cs) else more

-- A word whose first byte is overwritten is an empty string.
abbrev emptied : Bool → Taken → Taken
emptied true t = record t { token = [] }
emptied false t = t

-- The token that begins at the byte
pub read_token : BackSlash → Bool → ℕ → Bytes → Outcome Taken
read_token esc over c cs =
    if c == 34
    then read_quoted esc [] 0 cs
    else if c == 123
    then read_braces 1 [] cs
    else ret (emptied over (read_word [] (c ∷ cs)))

abbrev pub max_tokens : ℕ
max_tokens = 200

abbrev starts_line : Bytes → Bool
starts_line [] = false
starts_line (c ∷ cs) = c == newline

abbrev behind : Bytes → Bytes
behind [] = []
behind (c ∷ cs) = cs

-- The tokens of a line, and the text from its end on. A round takes a byte at least, so as many rounds
-- as the text has bytes are enough.
pub read_line : BackSlash → ℕ → Bool → List Bytes → Bytes → Outcome (List Bytes × Bytes)
read_line esc rounds over tokens [] =
    if ltb (length tokens) max_tokens then ret (tokens, []) else aborted
read_line esc zero over tokens (c ∷ cs) = aborted
read_line esc (suc rounds) over tokens (c ∷ cs) =
    let spaced = read_line esc rounds false tokens cs in
    let continued = read_line esc rounds false tokens (behind cs) in
    let next = read_token esc over c cs >>= λ t.
    read_line esc rounds t.broken (tokens ++ t.token ∷ []) t.rest in
    if not (ltb (length tokens) max_tokens)
    then aborted
    else if c == newline
    then ret (tokens, c ∷ cs)
    else if is_space c
    then spaced
    else if c == 92 && starts_line cs
    then continued
    else next

-- The rest of a comment, from its newline on
pub skip_comment : Bytes → Bytes
skip_comment [] = []
skip_comment (c ∷ cs) = let more = skip_comment cs in if c == newline then c ∷ cs else more
