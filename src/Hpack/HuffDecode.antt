-- ===== src/Hpack/HuffDecode.antt =====
-- `huff_decode` of src/vtc_h2_hpack.c. The tables are in vtc_h2_dectbl.h, which the build generates;
-- they are parameters here.
use vtest.Base.{
  ℕ, zero, suc, ◌+◌, ◌-◌, ◌*◌, ◌/◌, ◌%◌, ◌^◌, [], ◌∷◌, ◌++◌, Bytes, Bool, true, false, ◌||◌, ◌&&◌,
  ltb, leb, ◌==◌, if◌then◌else◌, Option, none, some, Outcome, ret, aborted, undefined, ◌>>=◌,
}
use vtest.Hpack.Types.{Cursor}

-- struct ssym: the bits it takes, its character, and the table that goes on, if one does.
pub record Ssym (Tbl : Type 0) : Type 0 where
  pub csm : ℕ
  pub chr : ℕ
  pub nxt : Option Tbl

-- The tables: struct stbl with its fields, the table `tbl_0`, and the comparison with its address.
pub record Stbl : Type 1 where
  pub Tbl : Type 0
  pub tbl_0 : Tbl
  pub is_tbl_0 : Tbl → Bool
  pub msk : Tbl → ℕ
  pub syms : Tbl → ℕ → Ssym Tbl

-- MASK, with the shift that C leaves undefined for no bits
pub mask : ℕ → ℕ → Outcome ℕ
mask pack n = if n == 0 || ltb 64 n then undefined else ret (pack / 2 ^ (64 - n))

-- The bits that wait, the buffer, and the bytes of the text that are still in it.
pub record Window : Type 0 where
  pub pack : ℕ
  pub pl : ℕ
  pub before : Bytes
  pub after : Bytes
  pub ilen : ℕ

-- `while (pl <= 56 && ilen > 0)`, which takes a byte each round
pub fill : Bytes → Bytes → ℕ → ℕ → ℕ → Outcome Window
fill [] before pack pl ilen =
    if leb pl 56 && ltb 0 ilen
    then undefined
    else ret (record { pack = pack; pl = pl; before = before; after = []; ilen = ilen })
fill (b ∷ after) before pack pl ilen =
    let more = fill after (before ++ b ∷ []) (pack + b * 2 ^ (56 - pl)) (pl + 8) (ilen - 1) in
    if leb pl 56 && ltb 0 ilen
    then more
    else ret (record { pack = pack; pl = pl; before = before; after = b ∷ after; ilen = ilen })

-- The characters, of which there are none after `return (0)`, and the iterator.
pub record Text : Type 0 where
  pub chars : Bytes
  pub at : Cursor

abbrev text_at : Bytes → Window → Text
text_at str w = record { chars = str; at = record { before = w.before; after = w.after } }

module _ (s : Stbl) where
  open s use {Tbl, tbl_0, is_tbl_0, msk, syms}

  -- What a symbol does, and the rounds that follow it.
  pub take_symbol :
      (Bytes → Tbl → Window → Outcome Text) → Bytes → ℕ → Ssym Tbl → Window → Outcome Text
  take_symbol others str bits sym w =
      if ltb bits sym.csm
      then aborted
      else if sym.csm == 0 || ltb w.pl sym.csm
      then ret (text_at [] w)
      else if ltb 8 sym.csm
      then aborted
      else let w' = record w { pack = w.pack * 2 ^ sym.csm % 2 ^ 64; pl = w.pl - sym.csm } in
        elim sym.nxt [
          | some next ↦ others str next w'
          | none ↦ others (str ++ sym.chr ∷ []) tbl_0 w'
        ]

  -- The symbol under the mask.
  pub decode_symbol : (Bytes → Tbl → Window → Outcome Text) → Bytes → Tbl → Window → Outcome Text
  decode_symbol others str tbl w = do
    index ← mask w.pack (msk tbl)
    take_symbol others str (msk tbl) (syms tbl index) w

  -- Whether the input ends here: nothing is left, or only the ones that pad the last byte.
  pub at_end : Tbl → Window → Outcome Bool
  at_end tbl w =
      if ltb w.pl (msk tbl) && w.ilen == 0
      then (if w.pl == 0
          then ret true
          else (do bits ← mask w.pack w.pl; ret (bits == 2 ^ w.pl - 1)))
      else ret false

  pub refill : Tbl → Window → Outcome Window
  refill tbl w = if ltb w.pl (msk tbl) then fill w.after w.before w.pack w.pl w.ilen else ret w

  -- The outer loop. A round that goes on takes a bit at least.
  pub decode_loop : ℕ → Bytes → Tbl → Window → Outcome Text
  decode_loop zero str tbl w = ret (text_at str w)
  decode_loop (suc rounds) str tbl w =
      let again = λ (str' : Bytes) (tbl' : Tbl) (w' : Window). decode_loop rounds str' tbl' w' in
      if w.ilen == 0 && w.pl == 0 then ret (text_at str w) else (do
        ended ← at_end tbl w
        let final = if is_tbl_0 tbl then ret (text_at str w) else aborted
        let others = (do
          w' ← refill tbl w
          if msk tbl == 0 then aborted else decode_symbol again str tbl w')
        if ended then final else others)

  pub huff_decode : Cursor → ℕ → Outcome Text
  huff_decode it ilen =
      decode_loop (8 * ilen + 1) [] tbl_0
        (record { pack = 0; pl = 0; before = it.before; after = it.after; ilen = ilen })
