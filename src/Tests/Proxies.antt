-- ===== src/Tests/Proxies.antt =====
-- Headers of the PROXY protocol, and bytes in hex, at concrete inputs.
use vtest.Base.{inl, inr, ℕ, ◌≡◌, refl, List, [], ◌∷◌, ◌++◌, Bytes, codes, some, ret, arith}
use vtest.Subr.{vtc_hex_to_bin}
use vtest.Subr.Hex.{Written, spelling, vtc_hex_to_bin-spelling}
use vtest.Proxy.{v2, pf_inet, SuckAddr, vtc_send_proxy}
use vtest.Proxy.Header.{read_v2, vtc_send_proxy-read_v2}
use vtest.Proxy.Tlvs.{Tlv, all_tlvs}

-- " 4 a" and "4B"
abbrev spelled : List Written
spelled =
    record { gap1 = 32 ∷ []; digit1 = 52; gap2 = 32 ∷ []; digit2 = 97 }
    ∷ record { gap1 = []; digit1 = 52; gap2 = []; digit2 = 66 }
    ∷ []

vtc_hex_to_bin-spelling_example : vtc_hex_to_bin (spelling spelled) ≡ ret (0x4a ∷ 0x4b ∷ [])
vtc_hex_to_bin-spelling_example = vtc_hex_to_bin-spelling spelled (0x4a ∷ 0x4b ∷ []) (
  (4, 10, inl refl, inl refl, refl, (inl refl, tt), (inl refl, tt)),
  ((4, 11, inl refl, inr refl, refl, tt, tt), tt),
)

abbrev local : ℕ → SuckAddr
local port = record {
  proto = pf_inet;
  sin_addr = 127 ∷ 0 ∷ 0 ∷ 1 ∷ [];
  sin6_addr = some [];
  port = port;
  host_name = codes "127.0.0.1";
  port_name = [];
}

-- A type in hex, and one by its name
abbrev texts : List Bytes
texts = codes "0x05=0x0102" ∷ codes "authority=a" ∷ []

abbrev tlvs : List Tlv
tlvs = (5, 1 ∷ 2 ∷ []) ∷ (2, 97 ∷ []) ∷ []

vtc_send_proxy-read_v2_example :
    (tlv : Bytes) × (bytes : Bytes) × (all_tlvs texts [] ≡ ret tlv)
    × (vtc_send_proxy v2 (local 80) (local 8080) tlv ≡ ret bytes)
    × (read_v2 (bytes ++ codes "GET")
        ≡ some (record {
          family = 0x11;
          client = 127 ∷ 0 ∷ 0 ∷ 1 ∷ [];
          server = 127 ∷ 0 ∷ 0 ∷ 1 ∷ [];
          client_port = 80;
          server_port = 8080;
          tlvs = some tlvs;
          rest = codes "GET";
        }))
unfolding vtest.Proxy.tlv_type vtest.Proxy.tlv_value vtest.Proxy.pp2_type vtest.Proxy.skip_equals
    vtest.Proxy.split_equals vtest.Subr.vtc_hex_to_bin vtest.Subr.hex_digit vtest.Subr.is_gap
    vtest.Macros.same_text
vtc_send_proxy-read_v2_example =
    vtc_send_proxy-read_v2 texts tlvs (local 80) (local 8080) (127 ∷ 0 ∷ 0 ∷ 1 ∷ [])
      (127 ∷ 0 ∷ 0 ∷ 1 ∷ []) (codes "GET")
      ((refl, refl, omega arith), ((refl, refl, omega arith), tt)) (omega arith) (refl, refl)
      (refl, refl) (omega arith) (omega arith)
