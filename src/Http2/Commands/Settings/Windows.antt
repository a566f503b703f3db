-- ===== src/Http2/Commands/Settings/Windows.antt =====
-- The windows of both ends behind a new initial size (src/vtc_http2.c).
use vtest.Base.{
  ℕ, ◌<◌, ◌≡◌, refl, ap, List, [], ◌∷◌, ◌++◌, map, Bytes, codes, some, ret, ◌>>=◌, arith, get_or,
  none, length, replicate, ◌%◌, ◌^◌, ◌==◌, true, Option, length-append, Outcome, aborted, ◌∙◌, ◌-◌,
}
use vtest.Base.Int.{ℤ, pos, ◌+ℤ◌, ◌-ℤ◌}
use vtest.Macros.{same_text}
use vtest.Http2.Bytes.{vbe32enc}
use vtest.Http2.Frame.{Frame, Meta}
use vtest.Http2.State.{Http, Stream}
use vtest.Http2.Write.{write_frame_other}
use vtest.Http2.Commands.{init_frame, whole_number, check_bits, strtou32, strtou32_check}
use vtest.Http2.Commands.Settings.{
  grown, vbe16enc, put_setting, init_window, put_winsize, put_option, settings_args, send_settings,
  cmd_txsettings,
}
use vtest.Http2.Take.{
  Rx, peer_grown, one_of, next_frame, check_frame, initial_window, take_settings, cmd_rxsettings,
}

-- Each stream of an end may take as much as the other end believes.
abbrev pub Agree : List Stream → List Stream → Type 0
Agree [] [] = Unit {0}
Agree (s ∷ ss) (r ∷ rs) = (s.win_self ≡ r.win_peer) × Agree ss rs
Agree _ _ = ⊥

-- An end with the stream of a command, and the other end
pub record InStep (hp : Http) (s : Stream) (rx : Rx) : Type 0 where
  pub initial : hp.win_self_init ≡ rx.hp.win_peer_init
  pub streams : Agree hp.streams rx.hp.streams
  pub own : s.win_self ≡ rx.s.win_peer

-- What the streams of an end may take, and what they may send
abbrev pub selves : List Stream → List ℤ
selves ss = map (λ s. s.win_self) ss

abbrev pub peers : List Stream → List ℤ
peers ss = map (λ s. s.win_peer) ss

-- Each window with the difference between two sizes added to it
abbrev pub raised : ℕ → ℕ → List ℤ → List ℤ
raised before now ws = map (λ w. w +ℤ (pos now -ℤ pos before)) ws

selves-grown : (v n : ℕ) (ss : List Stream) → selves (map (grown v n) ss) ≡ raised n v (selves ss)
selves-grown v n [] = refl
selves-grown v n (s ∷ ss) = ap (◌∷◌ (s.win_self +ℤ (pos v -ℤ pos n))) (selves-grown v n ss)

peers-grown : (v n : ℕ) (ss : List Stream) → peers (map (peer_grown v n) ss) ≡ raised n v (peers ss)
peers-grown v n [] = refl
peers-grown v n (s ∷ ss) = ap (◌∷◌ (s.win_peer +ℤ (pos v -ℤ pos n))) (peers-grown v n ss)

Agree-grown :
    (v n m : ℕ) (ss rs : List Stream)
    → n ≡ m
    → Agree ss rs
    → Agree (map (grown v n) ss) (map (peer_grown v m) rs)
Agree-grown v n m [] [] e h = tt
Agree-grown v n m [] (r ∷ rs) e h = absurd h
Agree-grown v n m (s ∷ ss) [] e h = absurd h
Agree-grown v n m (s ∷ ss) (r ∷ rs) e (h, hs) =
    let d = ap (λ k. pos v -ℤ pos k) e in (cc, Agree-grown v n m ss rs e hs)

check_frame-type {ℓ} :
    {A : Type ℓ} (f : Frame) (type : ℕ) (m : Outcome A) → f.type ≡ type → check_frame f type m ≡ m
unfolding check_frame
check_frame-type f type m e = let same : (f.type == type) ≡ true = ground arith in rw same

-- What the receiver does with the size
rxsettings_lem :
    (rx : Rx) (f : Frame) (fs : List Frame) (table : List (Option ℤ)) (v : ℕ)
    → rx.coming ≡ f ∷ fs
    → f.type ≡ 4
    → f.md ≡ Meta.settings table
    → get_or table 4 none ≡ some (pos v)
    → cmd_rxsettings rx ≡ initial_window (next_frame rx f fs) (some (pos v))
unfolding cmd_rxsettings one_of take_settings
rxsettings_lem rx f fs table v e t m g =
    ap (one_of 4 aborted (λ f fs. take_settings (next_frame rx f fs) f.md)) e
    ∙ check_frame-type f 4 (take_settings (next_frame rx f fs) f.md) t
    ∙ ap (take_settings (next_frame rx f fs)) m
    ∙ ap (initial_window (next_frame rx f fs)) g

module _ (strtoul0 : Bytes → ℕ × Bytes) where
  winsize_args :
      (n : Bytes) (v : ℕ) (hp : Http) (s : Stream)
      → strtoul0 n ≡ (v, [])
      → v < 2 ^ 31
      → (buf : Bytes) × (length buf ≡ 6)
        × (settings_args strtoul0
              (codes "-winsize" ∷ n ∷ [])
              (record { hp = hp; s = s; buf = []; flags = 0 })
            ≡ ret (init_window v (record { hp = hp; s = s; buf = buf; flags = 0 })))
  unfolding settings_args put_option put_winsize put_setting same_text strtou32_check strtou32
      whole_number check_bits vbe32enc
  winsize_args n v hp s e h =
      let low : v % 2 ^ 32 ≡ v = omega arith in (vbe16enc 4 ++ vbe32enc v, refl, rw (e, low) refl)

  -- The streams of both ends in step, and a size below 2 ^ 31 that is given as a number: cmd_txsettings with
  -- -winsize adds the difference to the size from before to what each stream of its end may take, and
  -- cmd_rxsettings of a SETTINGS frame that keeps this size for INITIAL_WINDOW_SIZE adds it to what each
  -- stream of the other end may send, the streams of the two commands included; both ends keep the size,
  -- and they are in step again.
  pub cmd_txsettings-cmd_rxsettings-InStep :
      (n : Bytes) (v : ℕ) (hp : Http) (s : Stream) (rx : Rx) (f : Frame) (fs : List Frame)
      (table : List (Option ℤ))
      → strtoul0 n ≡ (v, [])
      → v < 2 ^ 31
      → InStep hp s rx
      → rx.coming ≡ f ∷ fs
      → f.type ≡ 4
      → f.md ≡ Meta.settings table
      → get_or table 4 none ≡ some (pos v)
      → (hp' : Http) × (s' : Stream) × (bytes : Bytes) × (rx' : Rx) × (cmd_txsettings strtoul0 hp s
            (codes "-winsize" ∷ n ∷ [])
          ≡ ret (hp', s', bytes))
        × (cmd_rxsettings rx ≡ ret rx')
        × (selves hp'.streams ≡ raised hp.win_self_init v (selves hp.streams))
        × (s'.win_self ≡ s.win_self +ℤ (pos v -ℤ pos hp.win_self_init))
        × (peers rx'.hp.streams ≡ raised rx.hp.win_peer_init v (peers rx.hp.streams))
        × (rx'.s.win_peer ≡ rx.s.win_peer +ℤ (pos v -ℤ pos rx.hp.win_peer_init))
        × (hp'.win_self_init ≡ v)
        × (rx'.hp.win_peer_init ≡ v)
        × InStep hp' s' rx'
  unfolding cmd_txsettings send_settings initial_window init_window
  cmd_txsettings-cmd_rxsettings-InStep n v hp s rx f fs table e h step is t m g =
      let (buf, long, runs) = winsize_args n v hp s e h in
      let w = init_window v (record { hp = hp; s = s; buf = buf; flags = 0 }) in
      let d = ap (λ k. pos v -ℤ pos k) step.initial in
      (
        w.hp,
        w.s,
        _,
        _,
        ap (λ m. m >>= send_settings strtoul0) runs
            ∙ write_frame_other w.hp w.s
                (init_frame 4 (length buf) s.id 0 (buf ++ replicate (512 - length buf) 0)) refl
                (omega (arith, length-append buf (replicate (512 - length buf) 0))),
        rxsettings_lem rx f fs table v is t m g,
        selves-grown v hp.win_self_init hp.streams,
        refl,
        peers-grown v rx.hp.win_peer_init rx.hp.streams,
        refl,
        refl,
        refl,
        record {
          initial = refl;
          streams =
              Agree-grown v hp.win_self_init rx.hp.win_peer_init hp.streams rx.hp.streams
                step.initial step.streams;
          own =
              ap (λ k. k +ℤ (pos v -ℤ pos hp.win_self_init)) step.own
              ∙ ap (λ k. rx.s.win_peer +ℤ k) d;
        },
      )
