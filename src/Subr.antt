-- ===== src/Subr.antt =====
-- Helpers of src/vtc_subr.c: numbers in hex, `expect`, and how a process ended.
pub mod Hex
use vtest.Base.{
  ℕ, zero, suc, ◌+◌, ◌-◌, ◌*◌, ◌^◌, List, [], ◌∷◌, Bytes, codes, Bool, true, false, not, ◌&&◌, ◌||◌,
  ◌==◌, ltb, leb, if◌then◌else◌, Option, none, some, Outcome, ret, aborted, ◌>>=◌,
}
use vtest.Base.Int.{ℤ, pos, negsuc}
use vtest.Macros.{same_text}

-- The value of a hex digit
unfoldable pub hex_digit : ℕ → Option ℕ
hex_digit c =
    if leb 48 c && leb c 57
    then some (c - 48)
    else if leb 65 c && leb c 70
    then some (c - 55)
    else if leb 97 c && leb c 102
    then some (c - 87)
    else none

-- What is passed over: a space, a tab, or a newline
unfoldable pub is_gap : ℕ → Bool
is_gap c = (c == 32) || (c == 9) || (c == 10)

abbrev pub before : ℕ → Outcome Bytes → Outcome Bytes
before b m = m >>= λ bs. ret (b ∷ bs)

-- The loop of `vtc_hex_to_bin` over a C string, with `sh` and `b`
pub hex_loop : Bytes → ℕ → ℕ → Outcome Bytes
hex_loop [] sh b = ret (if sh == 4 then [] else b ∷ [])
hex_loop (c ∷ arg) sh b =
    let skipped = hex_loop arg sh b in
    let digit : Outcome Bytes = elim (hex_digit c) [
      | none ↦ aborted
      | some d ↦
          let b' = b + d * 2 ^ sh in
          let full = before b' (hex_loop arg 4 0) in
          let half = hex_loop arg (4 - sh) b' in if 4 - sh == 4 then full else half
    ] in
    if is_gap c then skipped else digit

unfoldable pub vtc_hex_to_bin : Bytes → Outcome Bytes
unfolding hex_loop
vtc_hex_to_bin arg = hex_loop arg 4 0

-- What `vtc_expect` uses: strtoul in base 0; VRE_compile with VRE_match, where a pattern may be wrong; and
-- the comparisons of the numbers that VNUM reads.
pub record Comparing : Type 0 where
  pub strtoul0 : Bytes → ℕ
  pub vre : Bytes → Option (Bytes → Bool)
  pub less : Bytes → Bytes → Bool
  pub less_equal : Bytes → Bytes → Bool

-- NULL is shown as a text.
abbrev pub shown : Option Bytes → Bytes
shown none = codes "<undef>"
shown (some t) = t

abbrev pub is_undef : Option Bytes → Bool
is_undef none = true
is_undef (some t) = false

-- `retval` for a comparison of two numbers: none where the operator is not known
pub compare_numbers : Comparing → Bytes → Bytes → Bytes → Option Bool
compare_numbers c lhs cmp rhs =
    if same_text cmp (codes "<")
    then some (c.less lhs rhs)
    else if same_text cmp (codes ">")
    then some (c.less rhs lhs)
    else if same_text cmp (codes "<=")
    then some (c.less_equal lhs rhs)
    else if same_text cmp (codes ">=")
    then some (c.less_equal rhs lhs)
    else none

-- `retval` for the other operators that compare integers or texts
pub compare_texts : Comparing → Bytes → Bytes → Bytes → Option Bool
compare_texts c lhs cmp rhs =
    let l = c.strtoul0 lhs in
    let r = c.strtoul0 rhs in
    if same_text cmp (codes "==")
    then some (same_text lhs rhs)
    else if same_text cmp (codes "!=")
    then some (not (same_text lhs rhs))
    else if same_text cmp (codes "-lt")
    then some (ltb l r)
    else if same_text cmp (codes "-le")
    then some (leb l r)
    else if same_text cmp (codes "-eq")
    then some (l == r)
    else if same_text cmp (codes "-ne")
    then some (not (l == r))
    else if same_text cmp (codes "-ge")
    then some (leb r l)
    else if same_text cmp (codes "-gt")
    then some (ltb r l)
    else none

-- A regular expression, and whether it is to fail
pub expect_vre : Comparing → Bool → Bytes → Bytes → Outcome Bool
expect_vre c inverted lhs rhs = elim (c.vre rhs) [
  | none ↦ aborted
  | some match_text ↦ ret (if inverted then not (match_text lhs) else match_text lhs)
]

abbrev expect_numbers : Comparing → Bool → Bytes → Bytes → Bytes → Outcome Bool
expect_numbers c undef lhs cmp rhs =
    if undef
    then ret false
    else elim (compare_numbers c lhs cmp rhs) [ none ↦ aborted | some b ↦ ret b ]

-- `retval` of `vtc_expect`
unfoldable pub expect_value : Comparing → Option Bytes → Bytes → Option Bytes → Outcome Bool
unfolding compare_texts compare_numbers expect_vre
expect_value c lhs cmp rhs =
    let l = shown lhs in
    let r = shown rhs in
    let undef = is_undef lhs || is_undef rhs in
    if same_text cmp (codes "~")
    then expect_vre c false l r
    else if same_text cmp (codes "!~")
    then expect_vre c true l r
    else elim (compare_texts c l cmp r) [ some b ↦ ret b | none ↦ expect_numbers c undef l cmp r ]

-- `vtc_expect` returns where the test holds, and ends the test case otherwise.
unfoldable pub vtc_expect : Comparing → Option Bytes → Bytes → Option Bytes → Outcome (Unit {0})
vtc_expect c lhs cmp rhs =
    expect_value c lhs cmp rhs >>= λ b. if b then ret (record {}) else aborted

-- What wait4 tells of a process: its exit status, or its signal and whether it left a core
pub data Status : Type 0 where
  exited : ℕ → Status
  signaled : ℕ → Bool → Status

pub core_bit : Bool → ℕ
core_bit true = 1
core_bit false = 0

-- Whether `vtc_wait4` accepts the end of the process. A negative signal allows it, and a positive one
-- demands it.
unfoldable pub wait_accepts : Status → ℕ → ℤ → ℕ → Bool
unfolding core_bit
wait_accepts (exited n) expect_status (negsuc s) allow_core = n == expect_status
wait_accepts (exited n) expect_status (pos s) allow_core = (s == 0) && (n == expect_status)
wait_accepts (signaled sig core) expect_status (negsuc s) allow_core =
    leb (core_bit core) allow_core && (sig == suc s)
wait_accepts (signaled sig core) expect_status (pos s) allow_core =
    leb (core_bit core) allow_core && (sig == s)

unfoldable pub vtc_wait4 : Status → ℕ → ℤ → ℕ → Outcome (Unit {0})
vtc_wait4 status expect_status expect_signal allow_core =
    if wait_accepts status expect_status expect_signal allow_core then ret (record {}) else aborted
