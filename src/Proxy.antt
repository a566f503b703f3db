-- ===== src/Proxy.antt =====
-- The PROXY protocol, src/vtc_proxy.c: the header in front of a connection, and its TLVs. Addresses are
-- read by the functions of Varnish's VSA and VTCP; `SuckAddr` has what they answer. Writing succeeds.
pub mod Header
pub mod Tlvs
use vtest.Base.{
  ℕ, ◌+◌, ◌-◌, ◌/◌, ◌%◌, ◌^◌, List, [], ◌∷◌, ◌++◌, Bytes, codes, length, Bool, true, false, ◌&&◌,
  ◌==◌, ltb, leb, if◌then◌else◌, Option, none, some, Outcome, ret, aborted, ◌>>=◌, ◌>>◌,
}
use vtest.Macros.{same_text}
use vtest.Subr.{vtc_hex_to_bin}

-- The rows of `pp2_types`
abbrev pub pp2_types : List (Bytes × ℕ)
pp2_types =
    (codes "alpn", 0x01)
    ∷ (codes "authority", 0x02)
    ∷ (codes "crc32c", 0x03)
    ∷ (codes "netns", 0x30)
    ∷ (codes "noop", 0x04)
    ∷ (codes "unique_id", 0x05)
    ∷ []

-- `bsearch` in the table, which is sorted and has each name once
unfoldable pub pp2_type : List (Bytes × ℕ) → Bytes → Option ℕ
pp2_type [] name = none
pp2_type ((n, t) ∷ rows) name =
    let later = pp2_type rows name in if same_text n name then some t else later

-- `strtok_r(kv, "=", ...)`: the `=` in front are passed over; the token ends at the next one, which is
-- taken too.
unfoldable pub skip_equals : Bytes → Bytes
skip_equals [] = []
skip_equals (c ∷ kv) = let rest = skip_equals kv in if c == 61 then rest else c ∷ kv

unfoldable pub split_equals : Bytes → Bytes × Bytes
split_equals [] = ([], [])
split_equals (c ∷ kv) =
    let (key, value) = split_equals kv in if c == 61 then ([], kv) else (c ∷ key, value)

-- The text behind `0x`
abbrev pub after_0x : Bytes → Option Bytes
after_0x (a ∷ b ∷ p) = if (a == 48) && (b == 120) then some p else none
after_0x _ = none

abbrev pub one_byte : Bytes → Outcome ℕ
one_byte (b ∷ []) = ret b
one_byte _ = aborted

abbrev pub known_type : Option ℕ → Outcome ℕ
known_type none = aborted
known_type (some t) = ret t

-- The type of a TLV: AN fails for an empty key.
unfoldable pub tlv_type : Bytes → Outcome ℕ
tlv_type [] = aborted
tlv_type (c ∷ key) = elim (after_0x (c ∷ key)) [
  | some p ↦ vtc_hex_to_bin p >>= one_byte
  | none ↦ known_type (pp2_type pp2_types (c ∷ key))
]

-- The value of a TLV
unfoldable pub tlv_value : Bytes → Outcome Bytes
tlv_value [] = aborted
tlv_value (c ∷ p) = elim (after_0x (c ∷ p)) [ some q ↦ vtc_hex_to_bin q | none ↦ ret (c ∷ p) ]

-- `vbe16enc`
abbrev pub vbe16enc : ℕ → Bytes
vbe16enc u = (u / 2 ^ 8 % 256) ∷ (u % 256) ∷ []

-- The length and the bytes of a value
pub put_value : Bytes → Outcome Bytes
put_value value =
    if leb (length value) 65535 then ret (vbe16enc (length value) ++ value) else aborted

-- `vtc_proxy_tlv` of a text adds a TLV to the others.
unfoldable pub vtc_proxy_tlv : Bytes → Bytes → Outcome Bytes
unfolding tlv_type tlv_value put_value
vtc_proxy_tlv tlvs kva =
    let (key, value) = split_equals (skip_equals kva) in
    do
      type ← tlv_type key
      given ← tlv_value value
      bytes ← put_value given
      ret (tlvs ++ type ∷ bytes)

-- The family of an address, by VSA_Get_Proto
pub data Proto : Type 0 where
  pf_inet pf_inet6 : Proto

-- What VSA and VTCP_name tell of an address. `sin6_addr` is none where the sockaddr is too short for a
-- sockaddr_in6.
pub record SuckAddr : Type 0 where
  pub proto : Proto
  pub sin_addr : Bytes
  pub sin6_addr : Option Bytes
  pub port : ℕ
  pub host_name : Bytes
  pub port_name : Bytes

pub vpx_enc_addr : Proto → SuckAddr → Outcome Bytes
vpx_enc_addr pf_inet6 s = elim s.sin6_addr [ none ↦ aborted | some a ↦ ret a ]
vpx_enc_addr pf_inet s = ret s.sin_addr

-- `vpx_enc_port`, with the conversion to uint16_t
abbrev pub vpx_enc_port : SuckAddr → Bytes
vpx_enc_port s = vbe16enc (s.port % 2 ^ 16)

-- Which version of the header
pub data Version : Type 0 where
  v1 v2 : Version

pub tcp_word : Proto → Bytes
tcp_word pf_inet6 = codes " TCP6 "
tcp_word pf_inet = codes " TCP4 "

abbrev pub sp : Bytes
sp = 32 ∷ []

pub header_v1 : SuckAddr → SuckAddr → Bytes
header_v1 sac sas =
    codes "PROXY"
    ++ (tcp_word sas.proto
        ++ (sac.host_name
            ++ (sp
                ++ (sas.host_name
                    ++ (sp ++ (sac.port_name ++ (sp ++ (sas.port_name ++ 13 ∷ 10 ∷ []))))))))

abbrev pub vpx2_sig : Bytes
vpx2_sig = 13 ∷ 10 ∷ 13 ∷ 10 ∷ 0 ∷ 13 ∷ 10 ∷ 81 ∷ 85 ∷ 73 ∷ 84 ∷ 10 ∷ []

abbrev pub family_byte : Proto → ℕ
family_byte pf_inet6 = 0x21
family_byte pf_inet = 0x11

abbrev pub addresses_size : Proto → ℕ
addresses_size pf_inet6 = 0x24
addresses_size pf_inet = 0x0c

pub header_v2 : SuckAddr → SuckAddr → ℕ → Outcome Bytes
header_v2 sac sas l = do
  client ← vpx_enc_addr sas.proto sac
  server ← vpx_enc_addr sas.proto sas
  ret (
      vpx2_sig
      ++ (0x21
          ∷ family_byte sas.proto
          ∷ (vbe16enc ((l + addresses_size sas.proto) % 2 ^ 16)
              ++ (client ++ (server ++ (vpx_enc_port sac ++ vpx_enc_port sas))))))

-- `vtc_send_proxy`: the bytes that it writes. `l` is a uint16_t, and keeps 16 bits of the length of the
-- TLVs before the assertion. No TLVs are the empty list.
unfoldable pub vtc_send_proxy : Version → SuckAddr → SuckAddr → Bytes → Outcome Bytes
unfolding header_v1 header_v2
vtc_send_proxy version sac sas tlv =
    let l = length tlv % 2 ^ 16 in
    let header : Outcome Bytes = elim version [
      | v1 ↦ ret (header_v1 sac sas)
      | v2 ↦ header_v2 sac sas l
    ] in
    let sent = header >>= λ h. ret (h ++ tlv) in if leb l (65535 - 0x24) then sent else aborted
