-- ===== src/Hpack/Table.antt =====
-- The header tables of HPACK: src/vtc_h2_tbl.c. Memory is never short and what is freed is never
-- looked at again, so `malloc` and `free` leave no trace.
pub mod Evict
pub mod Lookup
use vtest.Base.{
  ℕ, zero, suc, ◌+◌, ◌-◌, ◌%◌, ◌^◌, List, [], ◌∷◌, Option, none, some, Bool, true, false, not, ◌&&◌,
  ◌==◌, ltb, leb, if◌then◌else◌, Outcome, ret, aborted, undefined, ◌>>=◌, length, get_elem?, set,
  Bytes,
}
use vtest.Hpack.Static.{sttbl}
use vtest.Hpack.Types.{HpkResult, hpk_done, hpk_idx, HpkTxt, HpkHdr, HpkCtx, len, no_txt, txt}

-- Arithmetic of uint32_t.
abbrev pub add32 : ℕ → ℕ → ℕ
add32 a b = (a + b) % 2 ^ 32

abbrev pub sub32 : ℕ → ℕ → ℕ
sub32 a b = (a + 2 ^ 32 - b) % 2 ^ 32

pub new_ctx : ℕ → HpkCtx
new_ctx maxsize = record { dyntbl = []; maxsize = maxsize; size = 0 }

-- VTAILQ_LAST with VTAILQ_REMOVE: the list without its last item, and that item.
pub split_last : List HpkHdr → Option (List HpkHdr × HpkHdr)
split_last [] = none
split_last (h ∷ hs) = elim (split_last hs) [
  | none ↦ some ([], h)
  | some (front, last) ↦ some (h ∷ front, last)
]

pub pop_header : HpkCtx → Outcome HpkCtx
unfolding split_last
pop_header ctx = elim (split_last ctx.dyntbl) [
  | none ↦ aborted
  | some (front, h) ↦ ret (record ctx {
    dyntbl = front;
    size = sub32 ctx.size (add32 (add32 (len h.key) (len h.value)) 32);
  })
]

abbrev is_empty : List HpkHdr → Bool
is_empty [] = true
is_empty (h ∷ hs) = false

-- The `while` loops that drop the oldest entries. Each round drops one, so as many rounds as the
-- table has entries are enough.
pub pop_while : (HpkCtx → Bool) → ℕ → HpkCtx → Outcome HpkCtx
pop_while test zero ctx = ret ctx
pop_while test (suc rounds) ctx =
    let next = pop_header ctx >>= pop_while test rounds in
    if not (is_empty ctx.dyntbl) && test ctx then next else ret ctx

-- The `VTAILQ_FOREACH` of `tbl_get_field` and `HPK_GetHdr`, with `if (!idx--) break`: the entry where
-- it stops, if it does, and the value of `idx` then.
pub find_entry : List HpkHdr → ℕ → Option HpkHdr × ℕ
find_entry [] idx = (none, idx)
find_entry (dh ∷ dhs) zero = (some dh, 2 ^ 32 - 1)
find_entry (dh ∷ dhs) (suc idx) = find_entry dhs idx

abbrev if_nonzero : Option HpkHdr × ℕ → Option HpkHdr
if_nonzero (dh, idx) = if idx == 0 then none else dh

-- The search that `tbl_get_field` and `HPK_GetHdr` share.
pub find_header : HpkCtx → ℕ → Option HpkHdr
find_header ctx idx =
    if ltb (add32 61 ctx.size) idx
    then none
    else if leb idx 61
    then get_elem? sttbl idx
    else if_nonzero (find_entry ctx.dyntbl (idx - 62))

pub tbl_get_key : HpkCtx → ℕ → Option HpkTxt
tbl_get_key ctx idx = elim (find_header ctx idx) [ none ↦ none | some h ↦ some h.key ]

pub tbl_get_value : HpkCtx → ℕ → Option HpkTxt
tbl_get_value ctx idx = elim (find_header ctx idx) [ none ↦ none | some h ↦ some h.value ]

-- The pointer that `HPK_GetHdr` returns leads to the entry, whose `i` it sets.
pub hpk_get_hdr : HpkCtx → ℕ → Option HpkHdr × HpkCtx
hpk_get_hdr ctx idx = elim (find_header ctx idx) [
  | none ↦ (none, ctx)
  | some h ↦
      if leb idx 61
      then (some h, ctx)
      else let h' = record h { i = idx } in
        (some h', record ctx { dyntbl = set ctx.dyntbl (idx - 62) h' })
]

-- The key that `push_header` takes: that of the header, or that of the entry which its index names.
pub push_key : HpkCtx → HpkHdr → Option Bytes → Outcome (HpkTxt × HpkCtx)
push_key ctx oh (some bs) = ret (oh.key, ctx)
push_key ctx oh none =
    if oh.i == 0
    then aborted
    else let (found, ctx') = hpk_get_hdr ctx oh.i in
      elim found [ none ↦ aborted | some ih ↦ ret (ih.key, ctx') ]

-- What `malloc` and `memcpy` make of a text; the source must not be NULL.
abbrev pub copy_txt : HpkTxt → Outcome HpkTxt
copy_txt t = elim t.text [ none ↦ undefined | some bs ↦ ret (txt bs) ]

-- The fields `i` and `huff` of a new entry are not set, nor read before they are; they are 0 here.
abbrev pub new_entry : HpkTxt → HpkTxt → HpkHdr
new_entry k v = record { key = k; value = v; t = hpk_idx; i = 0 }

-- The part behind the loop: the entry is added if it fits.
pub push_entry : HpkHdr → ℕ → HpkCtx → Outcome HpkCtx
push_entry oh size ctx =
    if leb size (sub32 ctx.maxsize ctx.size)
    then (do
      (key, ctx') ← push_key ctx oh oh.key.text
      k ← copy_txt key
      v ← copy_txt oh.value
      ret (record ctx' { dyntbl = new_entry k v ∷ ctx'.dyntbl; size = add32 ctx'.size size }))
    else ret ctx

pub push_header : HpkCtx → HpkHdr → Outcome HpkCtx
unfolding push_entry
push_header ctx oh =
    if ltb ctx.maxsize ctx.size then aborted else if ctx.maxsize == 0 then ret ctx else (do
      (key, ctx') ← push_key ctx oh oh.key.text
      let size = add32 (add32 (len oh.value) 32) (len key)
      ctx'' ← pop_while (λ c. ltb (sub32 c.maxsize c.size) size) (length ctx'.dyntbl) ctx'
      push_entry oh size ctx'')

pub hpk_resize_tbl : HpkCtx → ℕ → Outcome (HpkCtx × HpkResult)
hpk_resize_tbl ctx num = do
  ctx' ← pop_while (λ c. ltb c.maxsize c.size) (length ctx.dyntbl) (record ctx { maxsize = num })
  ret (ctx', hpk_done)

pub hpk_get_tbl_size : HpkCtx → ℕ
hpk_get_tbl_size ctx = ctx.size

pub hpk_get_tbl_max_size : HpkCtx → ℕ
hpk_get_tbl_max_size ctx = ctx.maxsize

pub hpk_get_tbl_length : HpkCtx → ℕ
hpk_get_tbl_length ctx = length ctx.dyntbl
