-- ===== src/Hpack/Table/Evict.antt =====
-- Eviction: the table keeps its newest entries, as many as fit (RFC 7541, section 4).
use vtest.Base.{
  ℕ, zero, suc, ◌+◌, ◌-◌, ◌%◌, ◌^◌, ◌≤◌, ◌<◌, ◌≡◌, refl, sym, ◌∙◌, ap, List, [], ◌∷◌, ◌++◌, Option,
  none, some, Bool, true, false, ltb, leb, ◌==◌, if◌then◌else◌, ret, length, arith, Bytes,
  Bool-cases, ltb→lt, inl, inr,
}
use vtest.Hpack.Table.{
  sub32, split_last, pop_header, pop_while, push_header, push_entry, push_key, new_entry,
  hpk_resize_tbl,
}
use vtest.Hpack.Types.{hpk_done, HpkIndexed, HpkHdr, HpkCtx, len, txt}

-- The size of an entry, as RFC 7541, section 4.1, has it.
abbrev pub entry_size : HpkHdr → ℕ
entry_size h = len h.key + len h.value + 32

abbrev pub total : List HpkHdr → ℕ
total [] = 0
total (h ∷ hs) = entry_size h + total hs

-- The newest entries, as many as fit into `room` octets.
unfoldable pub keep : ℕ → List HpkHdr → List HpkHdr
keep room [] = []
keep room (h ∷ hs) =
    let rest = keep (room - entry_size h) hs in if leb (entry_size h) room then h ∷ rest else []

-- The table's size is that of its entries, within its bound, which is a uint32_t.
pub record IsValid (ctx : HpkCtx) : Type 0 where
  pub counted : ctx.size ≡ total ctx.dyntbl
  pub bounded : ctx.size ≤ ctx.maxsize
  pub is_uint32 : ctx.maxsize < 2 ^ 32

abbrev LastOf : List HpkHdr → Option (List HpkHdr × HpkHdr) → Type 0
LastOf hs none = hs ≡ []
LastOf hs (some (front, h)) =
    (hs ≡ front ++ h ∷ [])
    × (length hs ≡ suc (length front))
    × (total hs ≡ total front + entry_size h)

split_last_lem : (hs : List HpkHdr) → LastOf hs (split_last hs)
unfolding split_last
split_last_lem [] = refl
split_last_lem (h ∷ hs) = ground (arith, split_last_lem hs)

-- Without its oldest entry a list keeps the same, if all of it does not fit.
keep-concat :
    (hs : List HpkHdr) (h : HpkHdr) (room : ℕ)
    → room < total (hs ++ h ∷ [])
    → keep room (hs ++ h ∷ []) ≡ keep room hs
unfolding keep
keep-concat [] h room lt = ground arith
keep-concat (x ∷ hs) h room lt = ground (arith, keep-concat hs h (room - entry_size x))

keep_all : (hs : List HpkHdr) (room : ℕ) → total hs ≤ room → keep room hs ≡ hs
unfolding keep
keep_all [] room le = refl
keep_all (x ∷ hs) room le = ground (arith, keep_all hs (room - entry_size x))

total-keep : (hs : List HpkHdr) (room : ℕ) → total (keep room hs) ≤ room
unfolding keep
total-keep [] room = omega arith
total-keep (x ∷ hs) room = ground (arith, total-keep hs (room - entry_size x))

-- A table whose size is counted.
abbrev pub state : ℕ → List HpkHdr → HpkCtx
state m hs = record { dyntbl = hs; maxsize = m; size = total hs }

pop_header-concat :
    (m : ℕ) (hs front : List HpkHdr) (h : HpkHdr)
    → split_last hs ≡ some (front, h)
    → total hs ≡ total front + entry_size h
    → total hs < 2 ^ 32
    → pop_header (state m hs) ≡ ret (state m front)
unfolding pop_header
pop_header-concat m hs front h e t lt = rw e (ground arith)

module _ (test : HpkCtx → Bool) (m room most : ℕ)
    (same_test : (hs : List HpkHdr)
      → total hs ≤ most
      → 0 < total hs
      → test (state m hs) ≡ ltb room (total hs)) where
  -- What the loop comes to from a table of this many entries or fewer.
  abbrev Leaves : ℕ → Type 0
  Leaves rounds =
      (hs : List HpkHdr)
      → total hs < 2 ^ 32
      → total hs ≤ most
      → length hs ≤ rounds
      → pop_while test rounds (state m hs) ≡ ret (state m (keep room hs))

  one_dropped :
      (rounds : ℕ) (x : HpkHdr) (hs : List HpkHdr) (o : Option (List HpkHdr × HpkHdr))
      → Leaves rounds
      → total (x ∷ hs) < 2 ^ 32
      → total (x ∷ hs) ≤ most
      → length hs ≤ rounds
      → split_last (x ∷ hs) ≡ o
      → LastOf (x ∷ hs) o
      → ltb room (total (x ∷ hs)) ≡ true
      → pop_while test (suc rounds) (state m (x ∷ hs)) ≡ ret (state m (keep room (x ∷ hs)))
  unfolding pop_while
  one_dropped rounds x hs none ih lt le enough e s over = cc
  one_dropped rounds x hs (some (front, h)) ih lt le enough e s over =
      let kept : room < total (front ++ h ∷ []) =
        omega (arith, ap total s.0, ltb→lt room (total (x ∷ hs)) over) in
      rw (same_test (x ∷ hs) le (omega arith), over)
        (rw (pop_header-concat m (x ∷ hs) front h e s.2 lt) (
          ih front (omega arith) (omega arith) (omega arith)
          ∙ ap (λ l. ret (state m l)) (sym (rw s.0 (keep-concat front h room kept)))))

  -- The loop that drops entries leaves those that `keep` names.
  pop_while-keep : (rounds : ℕ) → Leaves rounds
  pop_while-keep zero [] lt le enough = unfold keep pop_while in refl
  pop_while-keep zero (x ∷ hs) lt le enough = absurd (omega arith)
  pop_while-keep (suc rounds) [] lt le enough = unfold keep pop_while in refl
  pop_while-keep (suc rounds) (x ∷ hs) lt le enough =
      elim (Bool-cases (ltb room (total (x ∷ hs)))) [
        | inl over ↦
            one_dropped rounds x hs (split_last (x ∷ hs)) (pop_while-keep rounds) lt le
              (omega arith) refl (split_last_lem (x ∷ hs)) over
        | inr fits ↦
            unfold pop_while in
            rw (same_test (x ∷ hs) le (omega arith), fits, keep_all (x ∷ hs) room (ground arith))
      ]

state_lem : (ctx : HpkCtx) → IsValid ctx → ctx ≡ state ctx.maxsize ctx.dyntbl
state_lem ctx v = ground arith

state-IsValid : (m : ℕ) (hs : List HpkHdr) → total hs ≤ m → m < 2 ^ 32 → IsValid (state m hs)
state-IsValid m hs h k = record { counted = refl; bounded = h; is_uint32 = k }

-- `HPK_ResizeTbl` sets the bound, keeps the newest entries that fit into it, and returns `hpk_done`.
pub hpk_resize_tbl-keep :
    (ctx : HpkCtx) (num : ℕ)
    → IsValid ctx
    → num < 2 ^ 32
    → (hpk_resize_tbl ctx num ≡ ret (state num (keep num ctx.dyntbl), hpk_done))
      × IsValid (state num (keep num ctx.dyntbl))
unfolding hpk_resize_tbl
hpk_resize_tbl-keep ctx num v h =
    let most = total ctx.dyntbl in
    let fits : most < 2 ^ 32 = omega (arith, v.counted, v.bounded, v.is_uint32) in
    let popped =
      pop_while-keep (λ c. ltb c.maxsize c.size) num num most (λ hs _ _. refl) (length ctx.dyntbl)
        ctx.dyntbl fits (omega arith) (omega arith) in
    (rw (v.counted, popped) refl, state-IsValid num _ (total-keep ctx.dyntbl num) h)

-- The entry that `push_header` makes of a header with its own texts.
abbrev pub entry_of : Bytes → Bytes → HpkHdr
entry_of k v = new_entry (txt k) (txt v)

-- The table behind a push: the new entry in front of the newest that fit beside it, or nothing if
-- it does not fit by itself.
abbrev pub pushed : ℕ → HpkHdr → List HpkHdr → List HpkHdr
pushed maxsize h hs =
    if leb (entry_size h) maxsize then h ∷ keep (maxsize - entry_size h) hs else []

total_zero : (hs : List HpkHdr) → total hs ≡ 0 → hs ≡ []
total_zero [] e = refl
total_zero (h ∷ hs) e = absurd (omega arith)

leb→ltb_false : (a b : ℕ) → a ≤ b → ltb b a ≡ false
leb→ltb_false a b h = ground arith

keep_zero : (hs : List HpkHdr) → keep 0 hs ≡ []
unfolding keep
keep_zero [] = refl
keep_zero (h ∷ hs) = ground arith

-- A header as a caller of `push_header` may give it, with a key and a value of its own.
abbrev pub with_texts : Bytes → Bytes → Bool → Bool → HpkIndexed → ℕ → HpkHdr
with_texts k v hk hv t i = record {
  key = record { text = some k; huff = hk };
  value = record { text = some v; huff = hv };
  t = t;
  i = i;
}

pushed-IsValid :
    (m : ℕ) (h : HpkHdr) (hs : List HpkHdr) → m < 2 ^ 32 → IsValid (state m (pushed m h hs))
pushed-IsValid m h hs lt = state-IsValid m _ (ground (arith, total-keep hs (m - entry_size h))) lt

module _ (k v : Bytes) (hk hv : Bool) (t : HpkIndexed) (i : ℕ) where
  added :
      (n m : ℕ) (hs : List HpkHdr)
      → total hs ≤ m
      → m < 2 ^ 32
      → n ≡ length k + length v + 32
      → push_entry (with_texts k v hk hv t i) n (state m hs)
        ≡ ret (state m (if leb n (m - total hs) then entry_of k v ∷ hs else hs))
  unfolding push_entry push_key
  added n m hs le lt e = ground arith

  push_state :
      (m : ℕ) (hs : List HpkHdr)
      → total hs ≤ m
      → m < 2 ^ 32
      → length k + length v + 32 < 2 ^ 32
      → push_header (state m hs) (with_texts k v hk hv t i)
        ≡ ret (state m (pushed m (entry_of k v) hs))
  unfolding push_header push_key
  push_state m hs le small lt =
      let need = ((length v + 32) % 2 ^ 32 + length k) % 2 ^ 32 in
      let exact : need ≡ length k + length v + 32 = omega arith in
      let popped =
        pop_while-keep (λ c. ltb (sub32 c.maxsize c.size) need) m (m - need) (total hs)
          (λ l some_left le'. ground arith) (length hs) hs (omega arith) (omega arith)
          (omega arith) in
      let kept = keep (m - need) hs in
      let last = added need m kept (omega (arith, total-keep hs (m - need))) small exact in
      elim (Bool-cases (m == 0)) [
        | inl none_fit ↦ ground (arith, total_zero hs)
        | inr room ↦
            rw (leb→ltb_false _ _ le, room, popped, last, exact)
              (ground (arith, total-keep hs (m - (length k + length v + 32)), keep_zero hs))
      ]

  -- push_header of a header with its own texts, whose lengths and 32 sum to less than 2 ^ 32, to a valid
  -- table returns the table with the new entry in front and the newest of the others that fit beside it,
  -- which is empty for an entry larger than its bound; the table is valid again.
  pub push_header-pushed :
      (ctx : HpkCtx)
      → IsValid ctx
      → length k + length v + 32 < 2 ^ 32
      → (push_header ctx (with_texts k v hk hv t i)
          ≡ ret (state ctx.maxsize (pushed ctx.maxsize (entry_of k v) ctx.dyntbl)))
        × IsValid (state ctx.maxsize (pushed ctx.maxsize (entry_of k v) ctx.dyntbl))
  push_header-pushed ctx valid lt =
      let le : total ctx.dyntbl ≤ ctx.maxsize = omega (arith, valid.counted, valid.bounded) in
      (
        rw (state_lem ctx valid) (push_state ctx.maxsize ctx.dyntbl le valid.is_uint32 lt),
        pushed-IsValid ctx.maxsize (entry_of k v) ctx.dyntbl valid.is_uint32,
      )
