-- ===== src/Http2/Commands/Control.antt =====
-- What the parsers of src/vtc_http2.c make of the frames that txprio and txgoaway send.
use vtest.Base.{
  ℕ, suc, ◌+◌, ◌%◌, ◌^◌, ◌<◌, ◌≡◌, refl, ap, ◌∙◌, List, [], ◌∷◌, ◌++◌, Bytes, codes, length, take,
  take_all, Bool, true, false, leb, none, some, ret, arith,
}
use vtest.Base.Int.{pos}
use vtest.Http2.Bytes.{vbe32enc}
use vtest.Http2.Frame.{Frame, Meta, write_frame_header}
use vtest.Http2.State.{Http, Stream, exclusive_stream_dependency}
use vtest.Http2.Write.{write_frame_other}
use vtest.Http2.Parse.{parsed, parse_prio, parse_goaway}
use vtest.Http2.Parse.Control.{
  dependency_bits, exclusive_bit, dependents, debug_of, parse_prio-bytes, parse_goaway-bytes,
}
use vtest.Http2.Commands.{
  init_frame, whole_number, check_bits, strtou32, strtou32_check, read_err, prio_args, send_prio,
  cmd_txprio, goaway_args, send_goaway, cmd_txgoaway,
}
use vtest.Http2.Payload.Priority.{Moves, exclusive-Moves, dependents-Moves}
use vtest.Macros.{same_text}

-- A number in 32 bits, with nothing behind it
abbrev pub Reads : (Bytes → ℕ × Bytes) → Bytes → ℕ → Type 0
Reads strtoul0 text n = strtoul0 text ≡ (n, [])

abbrev pub ex_word : Bool → List Bytes
ex_word true = codes "-ex" ∷ []
ex_word false = []

module _ (strtoul0 : Bytes → ℕ × Bytes) where
  read_bits :
      (l n : ℕ) (text : Bytes)
      → strtoul0 text ≡ (n, [])
      → n < 2 ^ suc l
      → n < 2 ^ 32
      → strtou32_check strtoul0 (suc l) text ≡ ret n
  unfolding strtou32_check strtou32 whole_number check_bits
  read_bits l n text e h k =
      let low : n % 2 ^ 32 ≡ n = omega arith in
      let below : leb (2 ^ suc l) n ≡ false = ground arith in rw (e, low, below)

  read_any :
      (n : ℕ) (text : Bytes)
      → strtoul0 text ≡ (n, [])
      → n < 2 ^ 32
      → strtou32_check strtoul0 0 text ≡ ret n
  unfolding strtou32_check strtou32 whole_number check_bits
  read_any n text e k = let low : n % 2 ^ 32 ≡ n = omega arith in rw (e, low)

  prio_args-words :
      (stream weight : Bytes) (n k : ℕ) (ex : Bool)
      → strtoul0 stream ≡ (n, [])
      → strtoul0 weight ≡ (k, [])
      → n < 2 ^ 31
      → k < 256
      → prio_args strtoul0
          (codes "-stream" ∷ stream ∷ codes "-weight" ∷ weight ∷ ex_word ex)
          (record { stid = 0; exclusive = false; weight = 0 })
        ≡ ret (record { stid = n; exclusive = ex; weight = k })
  unfolding prio_args same_text
  prio_args-words stream weight n k true e e' h h' =
      rw (read_any n stream e (omega arith), read_bits 7 k weight e' (omega arith) (omega arith))
  prio_args-words stream weight n k false e e' h h' =
      rw (read_any n stream e (omega arith), read_bits 7 k weight e' (omega arith) (omega arith))

  send_prio_lem :
      (hp : Http) (s : Stream) (n k : ℕ) (ex : Bool)
      → n < 2 ^ 31
      → k < 256
      → (hp' : Http) × (send_prio strtoul0 hp s (record { stid = n; exclusive = ex; weight = k })
          ≡ ret (
            hp',
            record s { weight = pos k; dependency = n },
            write_frame_header (init_frame 2 5 s.id 0 [])
                ++ (vbe32enc (dependency_bits n ex) ++ k ∷ []),
          ))
        × Moves ex s.id n hp hp'
  unfolding send_prio write_frame_header vbe32enc
  send_prio_lem hp s n k true h h' =
      let s' = record s { weight = pos k; dependency = n } in
      let hp' = exclusive_stream_dependency hp s' in
      let stid : n % 2 ^ 31 ≡ n = omega arith in
      let low : k % 256 ≡ k = omega arith in
      (
        hp',
        rw (low, stid)
            (write_frame_other hp' s' (init_frame 2 5 s.id 0 (vbe32enc (n + 2 ^ 31) ++ k ∷ [])) refl
              (omega arith)),
        exclusive-Moves hp s',
      )
  send_prio_lem hp s n k false h h' =
      let s' = record s { weight = pos k; dependency = n } in
      let low : k % 256 ≡ k = omega arith in
      (
        hp,
        rw low (
            write_frame_other hp s' (init_frame 2 5 s.id 0 (vbe32enc n ++ k ∷ [])) refl
              (omega arith)),
        refl,
      )

  -- Arguments -stream with a number below 2 ^ 31, -weight with one below 256, and perhaps -ex: cmd_txprio
  -- writes the header of a PRIORITY frame and five bytes, and the stream has the dependency and the weight;
  -- parse_prio of a frame with these bytes gives its stream the same dependency and weight, and keeps all
  -- three in the frame. Where -ex was given and the stream is not 0, at both ends each other stream with the
  -- same dependency depends on the stream from now on; nothing else of the connections changes.
  pub cmd_txprio-parse_prio :
      (hp rhp : Http) (s rs : Stream) (f : Frame) (stream weight : Bytes) (n k : ℕ) (ex : Bool)
      → strtoul0 stream ≡ (n, [])
      → strtoul0 weight ≡ (k, [])
      → n < 2 ^ 31
      → k < 256
      → f.content ≡ vbe32enc (dependency_bits n ex) ++ k ∷ []
      → f.size ≡ 5
      → (hp' : Http) × (cmd_txprio strtoul0 hp s
            (codes "-stream" ∷ stream ∷ codes "-weight" ∷ weight ∷ ex_word ex)
          ≡ ret (
            hp',
            record s { weight = pos k; dependency = n },
            write_frame_header (init_frame 2 5 s.id 0 []) ++ f.content,
          ))
        × (parse_prio rhp rs f
            ≡ ret (
                parsed
                  (dependents ex rhp (record rs { dependency = n }))
                  (record rs { dependency = n; weight = pos k })
                  (record f { md = Meta.prio n (exclusive_bit ex) k })))
        × Moves ex s.id n hp hp'
        × Moves ex rs.id n rhp (dependents ex rhp (record rs { dependency = n }))
  unfolding cmd_txprio
  cmd_txprio-parse_prio hp rhp s rs f stream weight n k ex e e' h h' is sized =
      let (hp', sent, moves) = send_prio_lem hp s n k ex h h' in
      (
        hp',
        rw (prio_args-words stream weight n k ex e e' h h', is) sent,
        parse_prio-bytes rhp rs f n k ex h is sized,
        moves,
        dependents-Moves ex rhp (record rs { dependency = n }),
      )

  goaway_args-words :
      (last err text : Bytes) (n k : ℕ)
      → strtoul0 last ≡ (n, [])
      → read_err strtoul0 err ≡ ret k
      → n < 2 ^ 31
      → goaway_args strtoul0
          (codes "-laststream" ∷ last ∷ codes "-err" ∷ err ∷ codes "-debug" ∷ text ∷ [])
          (record { err = 0; laststream = 0; debug = none })
        ≡ ret (record { err = k; laststream = n; debug = some text })
  unfolding goaway_args same_text
  goaway_args-words last err text n k e e' h = rw (read_bits 30 n last e h (omega arith), e')

  -- Arguments -laststream with a number below 2 ^ 31, -err with the name of an error or a number, which
  -- read_err reads as one below 2 ^ 32, and -debug with a text: cmd_txgoaway writes the header of a GOAWAY
  -- frame, the two numbers and the text, and changes nothing else; parse_goaway of a frame with these bytes
  -- gives both numbers back, and the text, or none for an empty one.
  pub cmd_txgoaway-parse_goaway :
      (hp rhp : Http) (s rs : Stream) (f : Frame) (last err text : Bytes) (n k : ℕ)
      → strtoul0 last ≡ (n, [])
      → read_err strtoul0 err ≡ ret k
      → n < 2 ^ 31
      → k < 2 ^ 32
      → f.content ≡ vbe32enc n ++ (vbe32enc k ++ text)
      → f.size ≡ length f.content
      → (cmd_txgoaway strtoul0 hp s
            (codes "-laststream" ∷ last ∷ codes "-err" ∷ err ∷ codes "-debug" ∷ text ∷ [])
          ≡ ret (hp, s, write_frame_header (init_frame 7 f.size s.id 0 []) ++ f.content))
        × (parse_goaway rhp rs f
            ≡ ret (parsed rhp rs (record f { md = Meta.goaway k n (debug_of text) })))
  unfolding cmd_txgoaway send_goaway write_frame_header vbe32enc
  cmd_txgoaway-parse_goaway hp rhp s rs f last err text n k e e' h h' is sized =
      let g = init_frame 7 (8 + length text) s.id 0 (vbe32enc n ++ (vbe32enc k ++ text)) in
      let total : f.size ≡ 8 + length text = omega (arith, ap length is) in
      let whole : g.size ≡ length g.content = omega arith in
      let taken = ap (λ m. take m g.content) whole ∙ take_all g.content in
      (
        rw
            (
              goaway_args-words last err text n k e e' h,
              write_frame_other hp s g refl (omega arith),
              taken,
            )
            (rw (total, is)),
        parse_goaway-bytes rhp rs f n k text h h' is sized,
      )
