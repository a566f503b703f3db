-- ===== src/Proxy/Tlvs.antt =====
-- The TLVs of the header of the PROXY protocol, as bytes (src/vtc_proxy.c).
use vtest.Base.{
  ℕ, zero, suc, ◌+◌, ◌*◌, ◌/◌, ◌%◌, ◌^◌, ◌<◌, ◌≤◌, ◌≡◌, refl, ap, List, [], ◌∷◌, ◌++◌, append_assoc,
  append-nil, Bytes, length, length-append, take, take-append, drop, drop-append, true, leb,
  if◌then◌else◌, Option, none, some, Outcome, ret, ◌>>=◌, arith, All,
}
use vtest.Proxy.{vbe16enc, tlv_type, tlv_value, put_value, vtc_proxy_tlv, skip_equals, split_equals}

-- A TLV: its type and its value
abbrev pub Tlv : Type 0
Tlv = ℕ × Bytes

-- What a receiver makes of the bytes behind the addresses: a type, a length of two bytes, and so many bytes
-- of the value, again and again. A round takes three bytes at least.
take_tlv : ℕ → ℕ → Bytes → Option (List Tlv) → Option (List Tlv)
take_tlv t n rest none = none
take_tlv t n rest (some ts) = if leb n (length rest) then some ((t, take n rest) ∷ ts) else none

pub read_tlvs : ℕ → Bytes → Option (List Tlv)
read_tlvs fuel [] = some []
read_tlvs (suc fuel) (t ∷ h ∷ l ∷ rest) =
    take_tlv t (h * 2 ^ 8 + l) rest (read_tlvs fuel (drop (h * 2 ^ 8 + l) rest))
read_tlvs _ _ = none

-- A text that vtc_proxy_tlv takes, with the TLV that it stands for
abbrev pub Stands : Bytes → Tlv → Type 0
Stands kva (t, value) =
    (tlv_type (split_equals (skip_equals kva)).0 ≡ ret t)
    × (tlv_value (split_equals (skip_equals kva)).1 ≡ ret value)
    × (length value < 2 ^ 16)

abbrev pub AllStand : List Bytes → List Tlv → Type 0
AllStand [] [] = Unit {0}
AllStand (k ∷ ks) (t ∷ ts) = Stands k t × AllStand ks ts
AllStand _ _ = ⊥

-- `vtc_proxy_tlv` for one text after the other, as the client does for its options
pub all_tlvs : List Bytes → Bytes → Outcome Bytes
all_tlvs [] tlvs = ret tlvs
all_tlvs (k ∷ ks) tlvs = vtc_proxy_tlv tlvs k >>= all_tlvs ks

abbrev pub wire : List Tlv → Bytes
wire [] = []
wire ((t, value) ∷ ts) = t ∷ (vbe16enc (length value) ++ (value ++ wire ts))

pub all_tlvs-wire :
    (ks : List Bytes) (ts : List Tlv) (tlvs : Bytes)
    → AllStand ks ts
    → all_tlvs ks tlvs ≡ ret (tlvs ++ wire ts)
unfolding all_tlvs vtc_proxy_tlv put_value
all_tlvs-wire [] [] tlvs h = rw append-nil
all_tlvs-wire [] (t ∷ ts) tlvs h = absurd h
all_tlvs-wire (k ∷ ks) [] tlvs h = absurd h
all_tlvs-wire (k ∷ ks) ((t, value) ∷ ts) tlvs ((is_t, is_v, small), hs) =
    let fits : leb (length value) 65535 ≡ true = ground arith in
    rw (is_t, is_v, fits, all_tlvs-wire ks ts (tlvs ++ t ∷ (vbe16enc (length value) ++ value)) hs)
      (ap ret (append_assoc tlvs (t ∷ (vbe16enc (length value) ++ value)) (wire ts)))

pub read_tlvs-wire :
    (ts : List Tlv) (fuel : ℕ)
    → All (λ t. length t.1 < 2 ^ 16) ts
    → length ts ≤ fuel
    → read_tlvs fuel (wire ts) ≡ some ts
unfolding read_tlvs take_tlv
read_tlvs-wire [] zero h k = refl
read_tlvs-wire [] (suc fuel) h k = refl
read_tlvs-wire (t ∷ ts) zero h k = absurd (omega arith)
read_tlvs-wire ((t, value) ∷ ts) (suc fuel) (h, hs) k =
    let n : length value / 2 ^ 8 % 256 * 2 ^ 8 + length value % 256 ≡ length value = omega arith in
    let room : leb (length value) (length (value ++ wire ts)) ≡ true =
      ground (arith, length-append value (wire ts)) in
    rw (
      n,
      drop-append value (wire ts),
      read_tlvs-wire ts fuel hs (omega arith),
      room,
      take-append value (wire ts),
    )

pub length-wire : (ts : List Tlv) → length ts ≤ length (wire ts)
length-wire [] = omega arith
length-wire ((t, value) ∷ ts) = omega (arith, length-append value (wire ts), length-wire ts)

pub AllStand-short :
    (ks : List Bytes) (ts : List Tlv) → AllStand ks ts → All (λ t. length t.1 < 2 ^ 16) ts
AllStand-short [] [] h = tt
AllStand-short [] (t ∷ ts) h = absurd h
AllStand-short (k ∷ ks) [] h = absurd h
AllStand-short (k ∷ ks) ((t, value) ∷ ts) ((is_t, is_v, small), hs) =
    (small, AllStand-short ks ts hs)
