-- ===== src/Logexp/Commands.antt =====
-- The commands that make the tests of an expectation on a log (src/vtc_logexp.c): `expect`, `fail` and
-- `abort`, and the arguments of `logexpect`. The numbers, tags and regular expressions are read by libc and
-- Varnish, whose functions are arguments.
pub mod Specs
use vtest.Base.{
  ℕ, ◌-◌, ◌^◌, ◌%◌, List, [], ◌∷◌, ◌++◌, Bytes, codes, length, Bool, true, false, not, ◌==◌, leb,
  ltb, if◌then◌else◌, Option, none, some, Outcome, ret, aborted, undefined, ◌>>=◌,
}
use vtest.Base.Int.{ℤ, pos, negsuc, signed32}
use vtest.Macros.{same_text}
use vtest.Logexp.{Skip, upto, any, alt, fail, clear, abort, Want, number, anything, last, Test}

-- strtol and strtoll in base 10, with the text behind the number; VSL_Name2Tag; VRE_compile
pub record Readers : Type 0 where
  pub strtol : Bytes → ℤ × Bytes
  pub strtoll : Bytes → ℤ × Bytes
  pub name2tag : Bytes → Option ℕ
  pub vre_compiles : Bytes → Bool

-- (int) of a long
unfoldable pub int_of : ℤ → ℤ
int_of (pos n) = signed32 (n % 2 ^ 32)
int_of (negsuc n) = signed32 (2 ^ 32 - 1 - n % 2 ^ 32)

-- A number that is not negative, with nothing behind it
unfoldable pub positive : ℤ × Bytes → Outcome ℕ
positive (pos n, []) = ret n
positive (pos n, c ∷ cs) = aborted
positive (negsuc n, rest) = aborted

unfoldable pub read_vxid : Readers → Bytes → Outcome Want
read_vxid rd av =
    let given = positive (rd.strtoll av) >>= λ n. ret (number n) in
    if same_text av (codes "*")
    then ret anything
    else if same_text av (codes "=")
    then ret last
    else given

unfoldable pub read_tag : Readers → Bytes → Outcome Want
read_tag rd av =
    let given : Outcome Want = elim (rd.name2tag av) [ none ↦ aborted | some n ↦ ret (number n) ] in
    if same_text av (codes "*")
    then ret anything
    else if same_text av (codes "=")
    then ret last
    else given

unfoldable pub read_vre : Readers → Option Bytes → Outcome (Option Bytes)
read_vre rd none = ret none
read_vre rd (some p) = if rd.vre_compiles p then ret (some p) else aborted

abbrev pub fourth : List Bytes → Option Bytes
fourth [] = none
fourth (p ∷ more) = some p

-- `cmd_logexp_common`, from the third word on: a missing word is a NULL pointer for `strcmp`.
unfoldable pub cmd_logexp_common : Readers → Skip → List Bytes → List Test → Outcome (List Test)
cmd_logexp_common rd skip_max [] tests = undefined
cmd_logexp_common rd skip_max (v ∷ []) tests = read_vxid rd v >>= λ vxid. undefined
cmd_logexp_common rd skip_max (v ∷ t ∷ more) tests = do
  vxid ← read_vxid rd v
  tag ← read_tag rd t
  vre ← read_vre rd (fourth more)
  ret (tests ++ record { vxid = vxid; tag = tag; vre = vre; skip_max = skip_max } ∷ [])

unfoldable pub read_skip : Readers → Bytes → Outcome Skip
read_skip rd av =
    let (n, end) = rd.strtol av in
    let given = positive (int_of n, end) >>= λ k. ret (upto k) in
    if same_text av (codes "*")
    then ret any
    else if same_text av (codes "?")
    then ret alt
    else given

-- `cmd_logexp_expect` of the words behind `expect`
unfoldable pub cmd_logexp_expect : Readers → List Bytes → List Test → Outcome (List Test)
cmd_logexp_expect rd (s ∷ v ∷ t ∷ []) tests =
    read_skip rd s >>= λ skip_max. cmd_logexp_common rd skip_max (v ∷ t ∷ []) tests
cmd_logexp_expect rd (s ∷ v ∷ t ∷ p ∷ []) tests =
    read_skip rd s >>= λ skip_max. cmd_logexp_common rd skip_max (v ∷ t ∷ p ∷ []) tests
cmd_logexp_expect rd _ tests = aborted

-- The test of `fail clear`, of which ALLOC_OBJ leaves the rest 0
abbrev pub clear_test : Test
clear_test = record { vxid = number 0; tag = number 0; vre = none; skip_max = clear }

unfoldable pub cmd_logexp_fail_add : Readers → List Bytes → List Test → Outcome (List Test)
cmd_logexp_fail_add rd (v ∷ t ∷ more) tests = cmd_logexp_common rd fail (v ∷ t ∷ more) tests
cmd_logexp_fail_add rd _ tests = aborted

-- `cmd_logexp_fail` of the words behind `fail`
unfoldable pub cmd_logexp_fail : Readers → List Bytes → List Test → Outcome (List Test)
unfolding cmd_logexp_fail_add
cmd_logexp_fail rd [] tests = aborted
cmd_logexp_fail rd (w ∷ more) tests =
    if same_text w (codes "clear")
    then ret (tests ++ clear_test ∷ [])
    else if same_text w (codes "add")
    then cmd_logexp_fail_add rd more tests
    else aborted

-- `cmd_logexp_abort` of the words behind `abort`
unfoldable pub cmd_logexp_abort : Readers → List Bytes → List Test → Outcome (List Test)
cmd_logexp_abort rd [] tests = undefined
cmd_logexp_abort rd (w ∷ more) tests = cmd_logexp_common rd abort more tests
