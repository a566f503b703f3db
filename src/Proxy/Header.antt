-- ===== src/Proxy/Header.antt =====
-- What a receiver reads from the header of the PROXY protocol, version 2 (src/vtc_proxy.c).
use vtest.Base.{
  ℕ, ◌+◌, ◌-◌, ◌*◌, ◌/◌, ◌%◌, ◌^◌, ◌<◌, ◌≤◌, ◌≡◌, refl, sym, ◌∙◌, List, [], ◌∷◌, ◌++◌, append_assoc,
  Bytes, length, length-append, take, take-append, drop, drop-append, true, ◌==◌, leb,
  if◌then◌else◌, Option, none, some, ret, arith,
}
use vtest.Proxy.{
  vbe16enc, Proto, pf_inet, pf_inet6, SuckAddr, vpx_enc_addr, v2, vpx2_sig, family_byte,
  addresses_size, header_v2, vtc_send_proxy,
}
use vtest.Macros.{same_text}
use vtest.Proxy.Tlvs.{
  Tlv, read_tlvs, AllStand, all_tlvs, wire, all_tlvs-wire, read_tlvs-wire, length-wire,
  AllStand-short,
}

-- What a receiver reads from a header: the family, the two addresses and ports, the TLVs, and what follows
pub record Read : Type 0 where
  pub family : ℕ
  pub client : Bytes
  pub server : Bytes
  pub client_port : ℕ
  pub server_port : ℕ
  pub tlvs : Option (List Tlv)
  pub rest : Bytes

-- The ports and the TLVs behind two addresses
read_ports : ℕ → Bytes → Bytes → Bytes → Bytes → Option Read
read_ports family client server (a ∷ b ∷ c ∷ d ∷ tl) rest = some (record {
  family = family;
  client = client;
  server = server;
  client_port = a * 2 ^ 8 + b;
  server_port = c * 2 ^ 8 + d;
  tlvs = read_tlvs (length tl) tl;
  rest = rest;
})
read_ports family client server _ rest = none

-- Two addresses of a size
read_block : ℕ → ℕ → Bytes → Bytes → Option Read
read_block family n block rest =
    read_ports family (take n block) (take n (drop n block)) (drop n (drop n block)) rest

-- The size of an address in a family
abbrev pub address_size : ℕ → ℕ
address_size family = if family == 0x21 then 16 else 4

-- The block whose length the header gives
read_sized : ℕ → ℕ → Bytes → Option Read
read_sized family n bytes =
    let block = read_block family (address_size family) (take n bytes) (drop n bytes) in
    if leb n (length bytes) then block else none

read_behind : Bytes → Option Read
read_behind (ver ∷ family ∷ h ∷ l ∷ bytes) =
    let sized = read_sized family (h * 2 ^ 8 + l) bytes in if ver == 0x21 then sized else none
read_behind _ = none

-- A header of version 2, by its signature
pub read_v2 : Bytes → Option Read
unfolding read_behind read_sized read_block read_ports
read_v2 bytes =
    let behind = read_behind (drop 12 bytes) in
    if same_text (take 12 bytes) vpx2_sig then behind else none

-- The addresses are those of the family of the server's.
abbrev pub IsAddress : Proto → SuckAddr → Bytes → Type 0
IsAddress pf_inet6 s a = (s.sin6_addr ≡ some a) × (length a ≡ 16)
IsAddress pf_inet s a = (s.sin_addr ≡ a) × (length a ≡ 4)

read_block-parts :
    (family n : ℕ) (c s tl rest : Bytes) (p q : ℕ)
    → length c ≡ n
    → length s ≡ n
    → p < 2 ^ 16
    → q < 2 ^ 16
    → read_block family n (c ++ (s ++ (vbe16enc p ++ (vbe16enc q ++ tl)))) rest
      ≡ some (record {
        family = family;
        client = c;
        server = s;
        client_port = p;
        server_port = q;
        tlvs = read_tlvs (length tl) tl;
        rest = rest;
      })
unfolding read_block read_ports
read_block-parts family n c s tl rest p q lc ls hp hq =
    let low_p : p / 2 ^ 8 % 256 * 2 ^ 8 + p % 256 ≡ p = omega arith in
    let low_q : q / 2 ^ 8 % 256 * 2 ^ 8 + q % 256 ≡ q = omega arith in
    let behind = s ++ (vbe16enc p ++ (vbe16enc q ++ tl)) in
    let fields = vbe16enc p ++ (vbe16enc q ++ tl) in
    let same : length c ≡ length s = lc ∙ sym ls in
    rw (
      ← lc,
      take-append c behind,
      drop-append c behind,
      same,
      take-append s fields,
      drop-append s fields,
      low_p,
      low_q,
    )

read_sized-whole :
    (family n : ℕ) (bytes rest : Bytes)
    → n ≡ length bytes
    → read_sized family n (bytes ++ rest) ≡ read_block family (address_size family) bytes rest
unfolding read_sized
read_sized-whole family n bytes rest e =
    let fits : leb (length bytes) (length (bytes ++ rest)) ≡ true =
      ground (arith, length-append bytes rest) in
    rw (e, fits, take-append bytes rest, drop-append bytes rest)

address-enc :
    (p : Proto) (s : SuckAddr) (a : Bytes)
    → IsAddress p s a
    → (vpx_enc_addr p s ≡ ret a)
      × (length a ≡ address_size (family_byte p))
      × (addresses_size p ≡ 2 * length a + 4)
unfolding vpx_enc_addr
address-enc pf_inet6 s a (is, long) = (rw is, long, omega arith)
address-enc pf_inet s a (is, long) = (rw is, long, omega arith)

-- The block of a header, with the TLVs joined to it
join-tlv :
    (a b : Bytes) (p q : ℕ) (tlv : Bytes)
    → (a ++ (b ++ (vbe16enc p ++ vbe16enc q))) ++ tlv
      ≡ a ++ (b ++ (vbe16enc p ++ (vbe16enc q ++ tlv)))
join-tlv a b p q tlv = rw (append_assoc, append_assoc)

length-block :
    (a b : Bytes) (p q n : ℕ) (tlv : Bytes)
    → length a ≡ n
    → length b ≡ n
    → length (a ++ (b ++ (vbe16enc p ++ (vbe16enc q ++ tlv)))) ≡ 2 * n + 4 + length tlv
length-block a b p q n tlv la lb = omega (
  arith,
  length-append a (b ++ (vbe16enc p ++ (vbe16enc q ++ tlv))),
  length-append b (vbe16enc p ++ (vbe16enc q ++ tlv)),
)

addresses-le : (p : Proto) → addresses_size p ≤ 36
addresses-le pf_inet6 = omega arith
addresses-le pf_inet = omega arith

-- The bytes of a header, by its family, the number of bytes behind it, and these
abbrev header_of : ℕ → ℕ → Bytes → Bytes
header_of family n block = vpx2_sig ++ (0x21 ∷ family ∷ (vbe16enc n ++ block))

send_proxy_lem :
    (sac sas : SuckAddr) (a b tlv : Bytes)
    → length tlv ≤ 65499
    → IsAddress sas.proto sac a
    → IsAddress sas.proto sas b
    → vtc_send_proxy v2 sac sas tlv
      ≡ ret (
          header_of
            (family_byte sas.proto)
            (length tlv + addresses_size sas.proto)
            (a ++ (b ++ (vbe16enc (sac.port % 2 ^ 16) ++ (vbe16enc (sas.port % 2 ^ 16) ++ tlv)))))
unfolding vtc_send_proxy header_v2
send_proxy_lem sac sas a b tlv few ia ib =
    let (enc_a, long_a, size_a) = address-enc sas.proto sac a ia in
    let (enc_b, long_b, size_b) = address-enc sas.proto sas b ib in
    let l : length tlv % 2 ^ 16 ≡ length tlv = omega arith in
    let fits : leb (length tlv) (65535 - 0x24) ≡ true = ground arith in
    let total : (length tlv + addresses_size sas.proto) % 2 ^ 16
        ≡ length tlv + addresses_size sas.proto =
      omega (arith, addresses-le sas.proto) in
    rw (l, fits, enc_a, enc_b, total, join-tlv a b (sac.port % 2 ^ 16) (sas.port % 2 ^ 16) tlv)

read_header :
    (family n : ℕ) (block rest : Bytes)
    → n ≡ length block
    → n < 2 ^ 16
    → read_v2 (header_of family n block ++ rest)
      ≡ read_block family (address_size family) block rest
unfolding read_v2 read_behind same_text
read_header family n block rest e h =
    let value : n / 2 ^ 8 % 256 * 2 ^ 8 + n % 256 ≡ n = omega arith in
    rw value (read_sized-whole family n block rest e)

-- Texts that stand for TLVs with values shorter than 2 ^ 16, which together take 65499 bytes at most, and
-- two addresses of the family of the server's with ports below 2 ^ 16: vtc_proxy_tlv takes all the texts, and
-- vtc_send_proxy writes a header of version 2, from which a receiver reads the family, both addresses and
-- ports, and exactly these TLVs, whatever follows; what follows is left.
pub vtc_send_proxy-read_v2 :
    (ks : List Bytes) (ts : List Tlv) (sac sas : SuckAddr) (a b rest : Bytes)
    → AllStand ks ts
    → length (wire ts) ≤ 65499
    → IsAddress sas.proto sac a
    → IsAddress sas.proto sas b
    → sac.port < 2 ^ 16
    → sas.port < 2 ^ 16
    → (tlv : Bytes) × (bytes : Bytes) × (all_tlvs ks [] ≡ ret tlv)
      × (vtc_send_proxy v2 sac sas tlv ≡ ret bytes)
      × (read_v2 (bytes ++ rest)
          ≡ some (record {
            family = family_byte sas.proto;
            client = a;
            server = b;
            client_port = sac.port;
            server_port = sas.port;
            tlvs = some ts;
            rest = rest;
          }))
vtc_send_proxy-read_v2 ks ts sac sas a b rest stand few ia ib pa pb =
    let (enc_a, long_a, size_a) = address-enc sas.proto sac a ia in
    let (enc_b, long_b, size_b) = address-enc sas.proto sas b ib in
    let p : sac.port % 2 ^ 16 ≡ sac.port = omega arith in
    let q : sas.port % 2 ^ 16 ≡ sas.port = omega arith in
    let tlv = wire ts in
    let block = a ++ (b ++ (vbe16enc sac.port ++ (vbe16enc sas.port ++ tlv))) in
    let n = length tlv + addresses_size sas.proto in
    let family = family_byte sas.proto in
    let sized : n ≡ length block =
      omega (arith, length-block a b sac.port sas.port (length a) tlv refl (long_b ∙ sym long_a)) in
    let read_ts = read_tlvs-wire ts (length tlv) (AllStand-short ks ts stand) (length-wire ts) in
    (
      tlv,
      header_of family n block,
      all_tlvs-wire ks ts [] stand,
      rw (send_proxy_lem sac sas a b tlv few ia ib, p, q),
      read_header family n block rest sized (omega (arith, addresses-le sas.proto))
          ∙ read_block-parts family (address_size family) a b tlv rest sac.port sas.port long_a
              long_b pa pb
          ∙ rw read_ts,
    )
