-- ===== src/Hpack/Table/Lookup.antt =====
-- Lookup: the index address space of RFC 7541, section 2.3.3.
use vtest.Base.{
  ℕ, zero, suc, ◌+◌, ◌-◌, ◌^◌, ◌≤◌, ◌<◌, ◌≡◌, refl, ◌∙◌, List, [], ◌∷◌, ◌++◌, none, some, Bool, ltb,
  if◌then◌else◌, ret, length, get_elem?, arith, Bytes,
}
use vtest.Hpack.Static.{sttbl}
use vtest.Hpack.Table.Evict.{
  IsValid, total, keep, entry_size, state, pushed, entry_of, with_texts, push_header-pushed,
}
use vtest.Hpack.Table.{find_entry, find_header, tbl_get_key, tbl_get_value, push_header, if_nonzero}
use vtest.Hpack.Types.{HpkIndexed, HpkHdr, HpkCtx, txt}

get_elem?-append :
    {A : Type 0} (xs ys : List A) (i : ℕ)
    → get_elem? (xs ++ ys) i
      ≡ (if ltb i (length xs) then get_elem? xs i else get_elem? ys (i - length xs))
get_elem?-append [] ys i = ground arith
get_elem?-append (x ∷ xs) ys zero = ground arith
get_elem?-append (x ∷ xs) ys (suc i) = ground (arith, get_elem?-append xs ys i)

get_elem?_beyond : {A : Type 0} (xs : List A) (i : ℕ) → length xs ≤ i → get_elem? xs i ≡ none
get_elem?_beyond [] i h = refl
get_elem?_beyond (x ∷ xs) zero h = absurd (omega arith)
get_elem?_beyond (x ∷ xs) (suc i) h = get_elem?_beyond xs i (omega arith)

find_entry_lem : (hs : List HpkHdr) (idx : ℕ) → if_nonzero (find_entry hs idx) ≡ get_elem? hs idx
unfolding find_entry
find_entry_lem [] idx = ground arith
find_entry_lem (h ∷ hs) zero = refl
find_entry_lem (h ∷ hs) (suc idx) = find_entry_lem hs idx

length-le-total : (hs : List HpkHdr) → length hs ≤ total hs
length-le-total [] = omega arith
length-le-total (h ∷ hs) = omega (arith, length-le-total hs)

-- The static table, with its entry 0, and the dynamic table behind it.
abbrev pub address_space : HpkCtx → List HpkHdr
address_space ctx = sttbl ++ ctx.dyntbl

length-sttbl : length sttbl ≡ 62
unfolding sttbl
length-sttbl = refl

-- In a valid table every index finds the entry of the static table followed by the dynamic one, the
-- newest entry first, and none beyond: the test against the size in octets lets no entry go amiss.
pub find_header-address_space :
    (ctx : HpkCtx) (idx : ℕ)
    → IsValid ctx
    → ctx.size + 61 < 2 ^ 32
    → find_header ctx idx ≡ get_elem? (address_space ctx) idx
unfolding find_header
find_header-address_space ctx idx v lt = ground (
  arith,
  length-sttbl,
  length-le-total ctx.dyntbl,
  get_elem?-append sttbl ctx.dyntbl idx,
  get_elem?_beyond ctx.dyntbl (idx - 62),
  find_entry_lem ctx.dyntbl (idx - 62),
)

pub find_header_dynamic :
    (ctx : HpkCtx) (i : ℕ)
    → IsValid ctx
    → ctx.size + 61 < 2 ^ 32
    → find_header ctx (62 + i) ≡ get_elem? ctx.dyntbl i
find_header_dynamic ctx i v lt =
    let behind : 62 + i - 62 ≡ i = omega arith in
    ground (
      arith,
      find_header-address_space ctx (62 + i) v lt,
      length-sttbl,
      get_elem?-append sttbl ctx.dyntbl (62 + i),
    )

-- What is kept of a table, and nothing behind it
get_elem?-keep :
    (hs : List HpkHdr) (room i : ℕ)
    → get_elem? (keep room hs) i ≡ (if ltb i (length (keep room hs)) then get_elem? hs i else none)
unfolding keep
get_elem?-keep [] room i = ground arith
get_elem?-keep (x ∷ hs) room zero = ground arith
get_elem?-keep (x ∷ hs) room (suc i) = ground (arith, get_elem?-keep hs (room - entry_size x) i)

module _ (k v : Bytes) (hk hv : Bool) (t : HpkIndexed) (i : ℕ) where
  -- After push_header of an entry that fits into a valid table whose bound is below 2 ^ 32 - 61, index 62
  -- finds its key and its value. Behind it, each entry that was kept, the newest that fit beside the new
  -- one, is found one index further on than before, and no index beyond them finds any.
  pub find_header-push_header :
      (ctx : HpkCtx)
      → IsValid ctx
      → ctx.maxsize + 61 < 2 ^ 32
      → length k + length v + 32 ≤ ctx.maxsize
      → (after : HpkCtx) × (push_header ctx (with_texts k v hk hv t i) ≡ ret after)
        × (tbl_get_key after 62 ≡ some (txt k))
        × (tbl_get_value after 62 ≡ some (txt v))
        × ((j : ℕ)
            → find_header after (63 + j) ≡ (
                if ltb j (length (keep (ctx.maxsize - (length k + length v + 32)) ctx.dyntbl))
                then find_header ctx (62 + j)
                else none))
  unfolding tbl_get_key tbl_get_value
  find_header-push_header ctx valid room fits =
      let (e, valid') = push_header-pushed k v hk hv t i ctx valid (omega arith) in
      let after = state ctx.maxsize (pushed ctx.maxsize (entry_of k v) ctx.dyntbl) in
      let small : total after.dyntbl + 61 < 2 ^ 32 = omega (arith, valid'.bounded) in
      let hs = keep (ctx.maxsize - (length k + length v + 32)) ctx.dyntbl in
      let shape : after.dyntbl ≡ entry_of k v ∷ hs = ground arith in
      let newest : find_header after 62 ≡ some (entry_of k v) =
        find_header_dynamic after 0 valid' small ∙ rw shape in
      (
        after,
        e,
        rw (newest, tbl_get_key),
        rw (newest, tbl_get_value),
        λ j. ground (
          arith,
          find_header_dynamic after (suc j) valid' small,
          find_header_dynamic ctx j valid (omega (arith, valid.bounded)),
          get_elem?-keep ctx.dyntbl (ctx.maxsize - (length k + length v + 32)) j,
        ),
      )
