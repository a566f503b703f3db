-- ===== src/Hpack/CodingTable.antt =====
-- The Huffman code of HPACK: src/vtc_h2_enctbl.h, as `coding_table` of src/vtc_h2_hpack.c includes it,
-- with the end mark behind it.
use vtest.Base.{ℕ, List, [], ◌∷◌}

-- struct symbol
pub record Symbol : Type 0 where
  pub val : ℕ
  pub size : ℕ

-- One HPACK line, without its first field, which the macro drops.
abbrev pub hpack : ℕ → ℕ → Symbol
hpack v l = record { val = v; size = l }

unfoldable pub coding_table : List Symbol
coding_table =
    hpack 0x1ff8 13
    ∷ hpack 0x7fffd8 23
    ∷ hpack 0xfffffe2 28
    ∷ hpack 0xfffffe3 28
    ∷ hpack 0xfffffe4 28
    ∷ hpack 0xfffffe5 28
    ∷ hpack 0xfffffe6 28
    ∷ hpack 0xfffffe7 28
    ∷ hpack 0xfffffe8 28
    ∷ hpack 0xffffea 24
    ∷ hpack 0x3ffffffc 30
    ∷ hpack 0xfffffe9 28
    ∷ hpack 0xfffffea 28
    ∷ hpack 0x3ffffffd 30
    ∷ hpack 0xfffffeb 28
    ∷ hpack 0xfffffec 28
    ∷ hpack 0xfffffed 28
    ∷ hpack 0xfffffee 28
    ∷ hpack 0xfffffef 28
    ∷ hpack 0xffffff0 28
    ∷ hpack 0xffffff1 28
    ∷ hpack 0xffffff2 28
    ∷ hpack 0x3ffffffe 30
    ∷ hpack 0xffffff3 28
    ∷ hpack 0xffffff4 28
    ∷ hpack 0xffffff5 28
    ∷ hpack 0xffffff6 28
    ∷ hpack 0xffffff7 28
    ∷ hpack 0xffffff8 28
    ∷ hpack 0xffffff9 28
    ∷ hpack 0xffffffa 28
    ∷ hpack 0xffffffb 28
    ∷ hpack 0x14 6
    ∷ hpack 0x3f8 10
    ∷ hpack 0x3f9 10
    ∷ hpack 0xffa 12
    ∷ hpack 0x1ff9 13
    ∷ hpack 0x15 6
    ∷ hpack 0xf8 8
    ∷ hpack 0x7fa 11
    ∷ hpack 0x3fa 10
    ∷ hpack 0x3fb 10
    ∷ hpack 0xf9 8
    ∷ hpack 0x7fb 11
    ∷ hpack 0xfa 8
    ∷ hpack 0x16 6
    ∷ hpack 0x17 6
    ∷ hpack 0x18 6
    ∷ hpack 0x0 5
    ∷ hpack 0x1 5
    ∷ hpack 0x2 5
    ∷ hpack 0x19 6
    ∷ hpack 0x1a 6
    ∷ hpack 0x1b 6
    ∷ hpack 0x1c 6
    ∷ hpack 0x1d 6
    ∷ hpack 0x1e 6
    ∷ hpack 0x1f 6
    ∷ hpack 0x5c 7
    ∷ hpack 0xfb 8
    ∷ hpack 0x7ffc 15
    ∷ hpack 0x20 6
    ∷ hpack 0xffb 12
    ∷ hpack 0x3fc 10
    ∷ hpack 0x1ffa 13
    ∷ hpack 0x21 6
    ∷ hpack 0x5d 7
    ∷ hpack 0x5e 7
    ∷ hpack 0x5f 7
    ∷ hpack 0x60 7
    ∷ hpack 0x61 7
    ∷ hpack 0x62 7
    ∷ hpack 0x63 7
    ∷ hpack 0x64 7
    ∷ hpack 0x65 7
    ∷ hpack 0x66 7
    ∷ hpack 0x67 7
    ∷ hpack 0x68 7
    ∷ hpack 0x69 7
    ∷ hpack 0x6a 7
    ∷ hpack 0x6b 7
    ∷ hpack 0x6c 7
    ∷ hpack 0x6d 7
    ∷ hpack 0x6e 7
    ∷ hpack 0x6f 7
    ∷ hpack 0x70 7
    ∷ hpack 0x71 7
    ∷ hpack 0x72 7
    ∷ hpack 0xfc 8
    ∷ hpack 0x73 7
    ∷ hpack 0xfd 8
    ∷ hpack 0x1ffb 13
    ∷ hpack 0x7fff0 19
    ∷ hpack 0x1ffc 13
    ∷ hpack 0x3ffc 14
    ∷ hpack 0x22 6
    ∷ hpack 0x7ffd 15
    ∷ hpack 0x3 5
    ∷ hpack 0x23 6
    ∷ hpack 0x4 5
    ∷ hpack 0x24 6
    ∷ hpack 0x5 5
    ∷ hpack 0x25 6
    ∷ hpack 0x26 6
    ∷ hpack 0x27 6
    ∷ hpack 0x6 5
    ∷ hpack 0x74 7
    ∷ hpack 0x75 7
    ∷ hpack 0x28 6
    ∷ hpack 0x29 6
    ∷ hpack 0x2a 6
    ∷ hpack 0x7 5
    ∷ hpack 0x2b 6
    ∷ hpack 0x76 7
    ∷ hpack 0x2c 6
    ∷ hpack 0x8 5
    ∷ hpack 0x9 5
    ∷ hpack 0x2d 6
    ∷ hpack 0x77 7
    ∷ hpack 0x78 7
    ∷ hpack 0x79 7
    ∷ hpack 0x7a 7
    ∷ hpack 0x7b 7
    ∷ hpack 0x7ffe 15
    ∷ hpack 0x7fc 11
    ∷ hpack 0x3ffd 14
    ∷ hpack 0x1ffd 13
    ∷ hpack 0xffffffc 28
    ∷ hpack 0xfffe6 20
    ∷ hpack 0x3fffd2 22
    ∷ hpack 0xfffe7 20
    ∷ hpack 0xfffe8 20
    ∷ hpack 0x3fffd3 22
    ∷ hpack 0x3fffd4 22
    ∷ hpack 0x3fffd5 22
    ∷ hpack 0x7fffd9 23
    ∷ hpack 0x3fffd6 22
    ∷ hpack 0x7fffda 23
    ∷ hpack 0x7fffdb 23
    ∷ hpack 0x7fffdc 23
    ∷ hpack 0x7fffdd 23
    ∷ hpack 0x7fffde 23
    ∷ hpack 0xffffeb 24
    ∷ hpack 0x7fffdf 23
    ∷ hpack 0xffffec 24
    ∷ hpack 0xffffed 24
    ∷ hpack 0x3fffd7 22
    ∷ hpack 0x7fffe0 23
    ∷ hpack 0xffffee 24
    ∷ hpack 0x7fffe1 23
    ∷ hpack 0x7fffe2 23
    ∷ hpack 0x7fffe3 23
    ∷ hpack 0x7fffe4 23
    ∷ hpack 0x1fffdc 21
    ∷ hpack 0x3fffd8 22
    ∷ hpack 0x7fffe5 23
    ∷ hpack 0x3fffd9 22
    ∷ hpack 0x7fffe6 23
    ∷ hpack 0x7fffe7 23
    ∷ hpack 0xffffef 24
    ∷ hpack 0x3fffda 22
    ∷ hpack 0x1fffdd 21
    ∷ hpack 0xfffe9 20
    ∷ hpack 0x3fffdb 22
    ∷ hpack 0x3fffdc 22
    ∷ hpack 0x7fffe8 23
    ∷ hpack 0x7fffe9 23
    ∷ hpack 0x1fffde 21
    ∷ hpack 0x7fffea 23
    ∷ hpack 0x3fffdd 22
    ∷ hpack 0x3fffde 22
    ∷ hpack 0xfffff0 24
    ∷ hpack 0x1fffdf 21
    ∷ hpack 0x3fffdf 22
    ∷ hpack 0x7fffeb 23
    ∷ hpack 0x7fffec 23
    ∷ hpack 0x1fffe0 21
    ∷ hpack 0x1fffe1 21
    ∷ hpack 0x3fffe0 22
    ∷ hpack 0x1fffe2 21
    ∷ hpack 0x7fffed 23
    ∷ hpack 0x3fffe1 22
    ∷ hpack 0x7fffee 23
    ∷ hpack 0x7fffef 23
    ∷ hpack 0xfffea 20
    ∷ hpack 0x3fffe2 22
    ∷ hpack 0x3fffe3 22
    ∷ hpack 0x3fffe4 22
    ∷ hpack 0x7ffff0 23
    ∷ hpack 0x3fffe5 22
    ∷ hpack 0x3fffe6 22
    ∷ hpack 0x7ffff1 23
    ∷ hpack 0x3ffffe0 26
    ∷ hpack 0x3ffffe1 26
    ∷ hpack 0xfffeb 20
    ∷ hpack 0x7fff1 19
    ∷ hpack 0x3fffe7 22
    ∷ hpack 0x7ffff2 23
    ∷ hpack 0x3fffe8 22
    ∷ hpack 0x1ffffec 25
    ∷ hpack 0x3ffffe2 26
    ∷ hpack 0x3ffffe3 26
    ∷ hpack 0x3ffffe4 26
    ∷ hpack 0x7ffffde 27
    ∷ hpack 0x7ffffdf 27
    ∷ hpack 0x3ffffe5 26
    ∷ hpack 0xfffff1 24
    ∷ hpack 0x1ffffed 25
    ∷ hpack 0x7fff2 19
    ∷ hpack 0x1fffe3 21
    ∷ hpack 0x3ffffe6 26
    ∷ hpack 0x7ffffe0 27
    ∷ hpack 0x7ffffe1 27
    ∷ hpack 0x3ffffe7 26
    ∷ hpack 0x7ffffe2 27
    ∷ hpack 0xfffff2 24
    ∷ hpack 0x1fffe4 21
    ∷ hpack 0x1fffe5 21
    ∷ hpack 0x3ffffe8 26
    ∷ hpack 0x3ffffe9 26
    ∷ hpack 0xffffffd 28
    ∷ hpack 0x7ffffe3 27
    ∷ hpack 0x7ffffe4 27
    ∷ hpack 0x7ffffe5 27
    ∷ hpack 0xfffec 20
    ∷ hpack 0xfffff3 24
    ∷ hpack 0xfffed 20
    ∷ hpack 0x1fffe6 21
    ∷ hpack 0x3fffe9 22
    ∷ hpack 0x1fffe7 21
    ∷ hpack 0x1fffe8 21
    ∷ hpack 0x7ffff3 23
    ∷ hpack 0x3fffea 22
    ∷ hpack 0x3fffeb 22
    ∷ hpack 0x1ffffee 25
    ∷ hpack 0x1ffffef 25
    ∷ hpack 0xfffff4 24
    ∷ hpack 0xfffff5 24
    ∷ hpack 0x3ffffea 26
    ∷ hpack 0x7ffff4 23
    ∷ hpack 0x3ffffeb 26
    ∷ hpack 0x7ffffe6 27
    ∷ hpack 0x3ffffec 26
    ∷ hpack 0x3ffffed 26
    ∷ hpack 0x7ffffe7 27
    ∷ hpack 0x7ffffe8 27
    ∷ hpack 0x7ffffe9 27
    ∷ hpack 0x7ffffea 27
    ∷ hpack 0x7ffffeb 27
    ∷ hpack 0xffffffe 28
    ∷ hpack 0x7ffffec 27
    ∷ hpack 0x7ffffed 27
    ∷ hpack 0x7ffffee 27
    ∷ hpack 0x7ffffef 27
    ∷ hpack 0x7fffff0 27
    ∷ hpack 0x3ffffee 26
    ∷ hpack 0x3fffffff 30
    ∷ hpack 0 0
    ∷ []
