-- ===== src/Hpack/Static.antt =====
-- The static table: src/vtc_h2_stattbl.h, and `sttbl` of src/vtc_h2_tbl.c, which has an entry without
-- texts at index 0.
use Prim.Native.String.{String}
use vtest.Base.{ℕ, List, [], ◌∷◌, codes}
use vtest.Hpack.Types.{HpkHdr, hpk_idx, no_txt, txt}

-- One STAT_HDRS line.
abbrev stat_hdr : ℕ → String → String → HpkHdr
stat_hdr j k v = record { key = txt (codes k); value = txt (codes v); t = hpk_idx; i = j }

unfoldable pub sttbl : List HpkHdr
sttbl =
    record { key = no_txt; value = no_txt; t = hpk_idx; i = 0 }
    ∷ stat_hdr 1 ":authority" ""
    ∷ stat_hdr 2 ":method" "GET"
    ∷ stat_hdr 3 ":method" "POST"
    ∷ stat_hdr 4 ":path" "/"
    ∷ stat_hdr 5 ":path" "/index.html"
    ∷ stat_hdr 6 ":scheme" "http"
    ∷ stat_hdr 7 ":scheme" "https"
    ∷ stat_hdr 8 ":status" "200"
    ∷ stat_hdr 9 ":status" "204"
    ∷ stat_hdr 10 ":status" "206"
    ∷ stat_hdr 11 ":status" "304"
    ∷ stat_hdr 12 ":status" "400"
    ∷ stat_hdr 13 ":status" "404"
    ∷ stat_hdr 14 ":status" "500"
    ∷ stat_hdr 15 "accept-charset" ""
    ∷ stat_hdr 16 "accept-encoding" "gzip,deflate"
    ∷ stat_hdr 17 "accept-language" ""
    ∷ stat_hdr 18 "accept-ranges" ""
    ∷ stat_hdr 19 "accept" ""
    ∷ stat_hdr 20 "access-control-allow-origin" ""
    ∷ stat_hdr 21 "age" ""
    ∷ stat_hdr 22 "allow" ""
    ∷ stat_hdr 23 "authorization" ""
    ∷ stat_hdr 24 "cache-control" ""
    ∷ stat_hdr 25 "content-disposition" ""
    ∷ stat_hdr 26 "content-encoding" ""
    ∷ stat_hdr 27 "content-language" ""
    ∷ stat_hdr 28 "content-length" ""
    ∷ stat_hdr 29 "content-location" ""
    ∷ stat_hdr 30 "content-range" ""
    ∷ stat_hdr 31 "content-type" ""
    ∷ stat_hdr 32 "cookie" ""
    ∷ stat_hdr 33 "date" ""
    ∷ stat_hdr 34 "etag" ""
    ∷ stat_hdr 35 "expect" ""
    ∷ stat_hdr 36 "expires" ""
    ∷ stat_hdr 37 "from" ""
    ∷ stat_hdr 38 "host" ""
    ∷ stat_hdr 39 "if-match" ""
    ∷ stat_hdr 40 "if-modified-since" ""
    ∷ stat_hdr 41 "if-none-match" ""
    ∷ stat_hdr 42 "if-range" ""
    ∷ stat_hdr 43 "if-unmodified-since" ""
    ∷ stat_hdr 44 "last-modified" ""
    ∷ stat_hdr 45 "link" ""
    ∷ stat_hdr 46 "location" ""
    ∷ stat_hdr 47 "max-forwards" ""
    ∷ stat_hdr 48 "proxy-authenticate" ""
    ∷ stat_hdr 49 "proxy-authorization" ""
    ∷ stat_hdr 50 "range" ""
    ∷ stat_hdr 51 "referer" ""
    ∷ stat_hdr 52 "refresh" ""
    ∷ stat_hdr 53 "retry-after" ""
    ∷ stat_hdr 54 "server" ""
    ∷ stat_hdr 55 "set-cookie" ""
    ∷ stat_hdr 56 "strict-transport-security" ""
    ∷ stat_hdr 57 "transfer-encoding" ""
    ∷ stat_hdr 58 "user-agent" ""
    ∷ stat_hdr 59 "vary" ""
    ∷ stat_hdr 60 "via" ""
    ∷ stat_hdr 61 "www-authenticate" ""
    ∷ []
