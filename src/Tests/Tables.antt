-- ===== src/Tests/Tables.antt =====
-- The header tables and the integers of HPACK at concrete inputs.
use vtest.Base.{
  ℕ, ltb, length, if◌then◌else◌, none, ◌+◌, ◌≡◌, refl, [], ◌∷◌, ◌++◌, Bytes, codes, false, some,
  ret, arith, get_elem?,
}
use vtest.Hpack.Num.Bounds.{Answers, num_decode-Answers}
use vtest.Hpack.Num.RoundTrip.{
  groups, representation, num_decode-representation, num_encode-representation,
}
use vtest.Hpack.Num.{num_decode, num_encode}
use vtest.Hpack.Table.Evict.{
  IsValid, state, keep, pushed, entry_of, with_texts, hpk_resize_tbl-keep, push_header-pushed,
}
use vtest.Hpack.Table.Lookup.{address_space, find_header-address_space, find_header-push_header}
use vtest.Hpack.Table.{push_header, hpk_resize_tbl, find_header, tbl_get_key, tbl_get_value}
use vtest.Hpack.Types.{hpk_done, hpk_more, hpk_inc, HpkCtx, txt}

abbrev host : Bytes
host = codes "host"

abbrev name : Bytes
name = codes "a.example"

-- A table of 100 octets with one entry of 45.
abbrev one_entry : HpkCtx
one_entry = state 100 (entry_of host name ∷ [])

one_entry-IsValid : IsValid one_entry
one_entry-IsValid = record { counted = refl; bounded = omega arith; is_uint32 = omega arith }

-- 1337 with a prefix of five bits, as in appendix C.1.2 of RFC 7541
representation-1337 : representation 5 0 1337 ≡ 31 ∷ 154 ∷ 10 ∷ []
unfolding representation groups
representation-1337 = refl

-- A number of three bytes, with one byte behind it
num_decode-Answers_example :
    Answers 5 31 []
      (154 ∷ 10 ∷ 7 ∷ [])
      (num_decode (record { before = []; after = 31 ∷ 154 ∷ 10 ∷ 7 ∷ [] }) 5)
num_decode-Answers_example =
    num_decode-Answers 5 31 [] (154 ∷ 10 ∷ 7 ∷ []) (omega arith) (omega arith)

num_decode-representation_example :
    num_decode (record { before = []; after = representation 5 0 1337 ++ 7 ∷ [] }) 5
    ≡ ret (record {
      result = hpk_more;
      num = 1337;
      at = record { before = representation 5 0 1337; after = 7 ∷ [] };
    })
num_decode-representation_example =
    num_decode-representation 5 0 1337 [] (7 ∷ []) (omega arith, omega arith) (omega arith)

num_encode-representation_example :
    num_encode (record { before = []; after = 0 ∷ 1 ∷ 2 ∷ 3 ∷ [] }) 5 1337
    ≡ ret (record {
      result = hpk_more;
      at = record { before = representation 5 0 1337; after = 3 ∷ [] };
    })
num_encode-representation_example =
    num_encode-representation 5 0 1337 [] (1 ∷ 2 ∷ []) (3 ∷ []) (omega arith, omega arith)
      (omega arith) (omega arith) (rw representation-1337 refl)

hpk_resize_tbl-keep_example :
    (hpk_resize_tbl one_entry 40 ≡ ret (state 40 (keep 40 (entry_of host name ∷ [])), hpk_done))
    × IsValid (state 40 (keep 40 (entry_of host name ∷ [])))
hpk_resize_tbl-keep_example = hpk_resize_tbl-keep one_entry 40 one_entry-IsValid (omega arith)

push_header-pushed_example :
    (push_header one_entry (with_texts name host false false hpk_inc 0)
      ≡ ret (state 100 (pushed 100 (entry_of name host) (entry_of host name ∷ []))))
    × IsValid (state 100 (pushed 100 (entry_of name host) (entry_of host name ∷ [])))
push_header-pushed_example =
    push_header-pushed name host false false hpk_inc 0 one_entry one_entry-IsValid (omega arith)

find_header-address_space_example :
    find_header one_entry 62 ≡ get_elem? (address_space one_entry) 62
find_header-address_space_example =
    find_header-address_space one_entry 62 one_entry-IsValid (omega arith)

find_header-push_header_example :
    (after : HpkCtx) × (push_header one_entry (with_texts name host false false hpk_inc 0)
      ≡ ret after)
    × (tbl_get_key after 62 ≡ some (txt name))
    × (tbl_get_value after 62 ≡ some (txt host))
    × ((j : ℕ)
        → find_header after (63 + j) ≡ (
            if ltb j (length (keep 55 one_entry.dyntbl))
            then find_header one_entry (62 + j)
            else none))
find_header-push_header_example =
    find_header-push_header name host false false hpk_inc 0 one_entry one_entry-IsValid
      (omega arith) (omega arith)
