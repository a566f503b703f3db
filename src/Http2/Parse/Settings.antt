-- ===== src/Http2/Parse/Settings.antt =====
-- What SETTINGS frames set: `parse_settings` of src/vtc_http2.c against the list of settings that the
-- frame encodes.
use native.Mathlib.Decide.{ℕ_discrete}
use vtest.Base.{
  ℕ, zero, suc, ◌+◌, ◌*◌, ◌/◌, ◌%◌, ◌^◌, ◌<◌, ◌≡◌, refl, ◌∙◌, ap, List, [], ◌∷◌, ◌++◌, Bytes,
  length, take, take_all, set, replicate, get_or, length-set, Bool-cases, inl, inr, true, false,
  ◌==◌, leb, ltb, if◌then◌else◌, Option, none, some, ret, ◌>>=◌, arith, All, ◌≢◌,
}
use vtest.Base.Int.{ℤ, signed32}
use vtest.Hpack.Types.{HpkCtx}
use vtest.Hpack.Table.Evict.{IsValid, state, keep, hpk_resize_tbl-keep}
use vtest.Http2.Bytes.{vbe32enc}
use vtest.Http2.Frame.{Frame, Meta}
use vtest.Http2.State.{Http, Stream}
use vtest.Http2.Parse.{parsed, parse_settings, settings_loop, resize_for, settings_max}

-- A setting: its identifier and its value
abbrev pub Setting : Type 0
Setting = ℕ × ℕ

-- The six bytes of each setting, in network byte order
abbrev pub encoded : List Setting → Bytes
encoded [] = []
encoded ((t, v) ∷ rest) = (t / 2 ^ 8) ∷ (t % 2 ^ 8) ∷ (vbe32enc v ++ encoded rest)

-- The fields hold them.
abbrev pub IsSetting : Setting → Type 0
IsSetting (t, v) = (t < 2 ^ 16) × (v < 2 ^ 32)

-- The last value that the list gives an identifier
abbrev pub last_value : List Setting → ℕ → Option ℤ → Option ℤ
last_value [] t before = before
last_value ((u, v) ∷ rest) t before =
    last_value rest t (if u == t then some (signed32 v) else before)

-- Each SETTINGS_HEADER_TABLE_SIZE sets the bound of the encoder's table and keeps the newest entries
-- that fit into it, in order.
abbrev resized_once : ℕ → ℕ → HpkCtx → HpkCtx
resized_once t v ctx = if t == 1 then state v (keep v ctx.dyntbl) else ctx

abbrev pub resized : List Setting → HpkCtx → HpkCtx
resized [] ctx = ctx
resized ((t, v) ∷ rest) ctx = resized rest (resized_once t v ctx)

resize_for-keep :
    (t v : ℕ) (ctx : HpkCtx)
    → IsValid ctx
    → v < 2 ^ 32
    → (resize_for t v ctx ≡ ret (resized_once t v ctx)) × IsValid (resized_once t v ctx)
unfolding resize_for
resize_for-keep t v ctx valid small = elim (Bool-cases (t == 1)) [
  | inl one ↦
      let (kept, still) = hpk_resize_tbl-keep ctx v valid small in
      (rw (one, kept) refl, rw one still)
  | inr other ↦ (rw other refl, rw other valid)
]

get_or-replicate : (n t : ℕ) → get_or {A = Option ℤ} (replicate n none) t none ≡ none
get_or-replicate zero t = refl
get_or-replicate (suc n) zero = refl
get_or-replicate (suc n) (suc t) = get_or-replicate n t

get_or-set_self :
    (xs : List (Option ℤ)) (i : ℕ) (v d : Option ℤ) → i < length xs → get_or (set xs i v) i d ≡ v
get_or-set_self [] i v d h = elim h [ ]
get_or-set_self (x ∷ xs) zero v d h = refl
get_or-set_self (x ∷ xs) (suc i) v d h = get_or-set_self xs i v d (omega arith)

get_or-set_ne :
    (xs : List (Option ℤ)) (i j : ℕ) (v d : Option ℤ)
    → i ≢ j
    → get_or (set xs i v) j d ≡ get_or xs j d
get_or-set_ne [] i j v d h = refl
get_or-set_ne (x ∷ xs) zero zero v d h = absurd (h refl)
get_or-set_ne (x ∷ xs) zero (suc j) v d h = refl
get_or-set_ne (x ∷ xs) (suc i) zero v d h = refl
get_or-set_ne (x ∷ xs) (suc i) (suc j) v d h = get_or-set_ne xs i j v d (λ e. h (ap suc e))

-- A write to the table under the test of its bounds, seen from a place in it
get_or-table :
    (xs : List (Option ℤ)) (i j : ℕ) (v : Option ℤ) (d : Option ℤ)
    → length xs ≡ 18
    → j < 18
    → get_or (if leb i settings_max then set xs i v else xs) j d
      ≡ (if i == j then v else get_or xs j d)
get_or-table xs i j v d h k = elim (ℕ_discrete i j) [
  | yes same ↦ ground (arith, same, get_or-set_self xs i v d (omega arith), k)
  | no other ↦ ground (arith, other, get_or-set_ne xs i j v d other)
]

-- One round of the loop over one setting
settings_loop-setting :
    (ctx : HpkCtx) (table : List (Option ℤ)) (u v : ℕ) (rest : Bytes)
    → IsSetting (u, v)
    → settings_loop ctx table ((u / 2 ^ 8) ∷ (u % 2 ^ 8) ∷ (vbe32enc v ++ rest)) ≡ (
        resize_for u v ctx >>= λ c.
        settings_loop c
          (if leb u settings_max then set table u (some (signed32 v)) else table)
          rest)
unfolding settings_loop vbe32enc
settings_loop-setting ctx table u v rest (small, fits) =
    let id : u / 2 ^ 8 * 2 ^ 8 + u % 2 ^ 8 ≡ u = omega arith in
    let value : v / 2 ^ 24 % 256 * 2 ^ 24
          + v / 2 ^ 16 % 256 * 2 ^ 16
          + v / 2 ^ 8 % 256 * 2 ^ 8
          + v % 256
        ≡ v =
      omega (arith, fits) in
    rw (id, value)

length-table :
    (xs : List (Option ℤ)) (u : ℕ) (v : Option ℤ)
    → length (if leb u settings_max then set xs u v else xs) ≡ length xs
length-table xs u v = ground (arith, length-set xs u v)

settings_loop-last_value :
    (ctx : HpkCtx) (table : List (Option ℤ)) (ss : List Setting)
    → All IsSetting ss
    → length table ≡ 18
    → IsValid ctx
    → (table' : List (Option ℤ)) × (settings_loop ctx table (encoded ss)
        ≡ ret (resized ss ctx, table'))
      × IsValid (resized ss ctx)
      × ((t : ℕ) → t < 18 → get_or table' t none ≡ last_value ss t (get_or table t none))
unfolding settings_loop
settings_loop-last_value ctx table [] every sized valid = (table, refl, valid, λ t h. refl)
settings_loop-last_value ctx table ((u, v) ∷ ss) (one, every) sized valid =
    let (kept, still) = resize_for-keep u v ctx valid one.1 in
    let val = some (signed32 v) in
    let now = if leb u settings_max then set table u val else table in
    let (table', loops, valid', holds) =
      settings_loop-last_value (resized_once u v ctx) now ss every
        (length-table table u val ∙ sized) still in
    let round = settings_loop-setting ctx table u v (encoded ss) one in
    let went = ap (λ r. r >>= λ c. settings_loop c now (encoded ss)) kept in
    (
      table',
      round ∙ went ∙ loops,
      valid',
      λ t h. holds t h ∙ ap (last_value ss t) (get_or-table table u t val none sized h),
    )

length-encoded : (ss : List Setting) → length (encoded ss) % 6 ≡ 0
unfolding vbe32enc
length-encoded [] = refl
length-encoded ((t, v) ∷ ss) = omega (arith, length-encoded ss)

-- For the bytes of a list of settings on stream 0, any identifiers of 16 bits and values of 32,
-- parse_settings returns; each identifier below 18 has the last value given for it as a signed number, or
-- none; and for each SETTINGS_HEADER_TABLE_SIZE in turn the encoder's valid table takes the value as its
-- bound and keeps the newest entries that fit; the table stays valid.
pub parse_settings-last_value :
    (hp : Http) (s : Stream) (f : Frame) (ss : List Setting)
    → All IsSetting ss
    → IsValid hp.encctx
    → s.id ≡ 0
    → f.content ≡ encoded ss
    → f.size ≡ length f.content
    → (table : List (Option ℤ)) × (parse_settings hp s f
        ≡ ret (
            parsed
              (record hp { encctx = resized ss hp.encctx })
              s
              (record f { md = Meta.settings table })))
      × IsValid (resized ss hp.encctx)
      × ((t : ℕ) → t < 18 → get_or table t none ≡ last_value ss t none)
unfolding parse_settings
parse_settings-last_value hp s f ss every valid on_zero split sized =
    let (table, loops, still, holds) =
      settings_loop-last_value hp.encctx (replicate 18 none) ss every refl valid in
    let sixes : (f.size % 6 == 0) ≡ true =
      ground (arith, sized, ap length split, length-encoded ss) in
    let all_there : ltb (length f.content) f.size ≡ false = ground (arith, sized) in
    let whole : take f.size f.content ≡ encoded ss =
      ap (λ n. take n f.content) sized ∙ take_all f.content ∙ split in
    let stream0 : (s.id == 0) ≡ true = ground (arith, on_zero) in
    (
      table,
      simp (sixes, stream0, all_there, whole, loops) refl,
      still,
      λ t h. holds t h ∙ ap (last_value ss t) (get_or-replicate 18 t),
    )
