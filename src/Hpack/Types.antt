-- ===== src/Hpack/Types.antt =====
-- The types of src/hpack.h and src/vtc_h2_priv.h.
use vtest.Base.{ℕ, List, Bool, false, Option, none, some, length, [], ◌∷◌, ◌++◌, Bytes}

-- enum hpk_result
pub data HpkResult : Type 0 where
  hpk_more hpk_done hpk_err : HpkResult

-- enum hpk_indexed
pub data HpkIndexed : Type 0 where
  hpk_unset hpk_idx hpk_inc hpk_not hpk_never : HpkIndexed

-- The buffer of a struct hpk_iter: `before` is what lies from `orig` up to `buf`, and `after` what
-- lies from `buf` up to `end`. A step of `buf` moves a byte over.
pub record Cursor : Type 0 where
  pub before : Bytes
  pub after : Bytes

-- The bytes from `orig` to `end`.
abbrev pub whole : Cursor → Bytes
whole c = c.before ++ c.after

-- ITER_DONE
abbrev pub iter_done : Bytes → HpkResult
iter_done [] = hpk_done
iter_done (b ∷ bs) = hpk_more

-- struct hpk_txt. `text` is what `ptr` points to, without the terminator; it is `none` for NULL.
pub record HpkTxt : Type 0 where
  pub text : Option Bytes
  pub huff : Bool

abbrev bytes_or_nil : Option Bytes → Bytes
bytes_or_nil none = []
bytes_or_nil (some bs) = bs

-- The field `len` of a struct hpk_txt: the code sets it together with `ptr`.
abbrev pub len : HpkTxt → ℕ
len t = length (bytes_or_nil t.text)

abbrev pub bytes_of : HpkTxt → Bytes
bytes_of t = bytes_or_nil t.text

-- struct hpk_hdr
pub record HpkHdr : Type 0 where
  pub key : HpkTxt
  pub value : HpkTxt
  pub t : HpkIndexed
  pub i : ℕ

abbrev pub no_txt : HpkTxt
no_txt = record { text = none; huff = false }

abbrev pub txt : Bytes → HpkTxt
txt bs = record { text = some bs; huff = false }

-- struct hpk_ctx, with the newest entry at the head of `dyntbl`. Its `sttbl` is one constant,
-- `Hpack.Static.sttbl`.
pub record HpkCtx : Type 0 where
  pub dyntbl : List HpkHdr
  pub maxsize : ℕ
  pub size : ℕ
