-- ===== src/Http2/Commands/Settings/Received.antt =====
-- What `parse_settings` makes of the frame that `cmd_txsettings` sends (src/vtc_http2.c).
use vtest.Base.{ℕ, ◌%◌, ◌^◌, ◌≡◌, List, [], ◌∷◌, ◌++◌, Bytes, codes, Bool, true, false}
use vtest.Http2.Frame.{Frame}
use vtest.Http2.Parse.Settings.{Setting, encoded, resized}
use vtest.Http2.Commands.Settings.{Writing, init_window}

-- An option of txsettings with its argument
pub data Choice : Type 0 where
  push : Bool → Choice
  hdrtbl maxstreams winsize framesize hdrsize : Bytes → Choice

abbrev pub word_of : Bool → Bytes
word_of true = codes "true"
word_of false = codes "false"

-- The two words of an option
abbrev pub words : List Choice → List Bytes
words [] = []
words (push b ∷ cs) = codes "-push" ∷ word_of b ∷ words cs
words (hdrtbl n ∷ cs) = codes "-hdrtbl" ∷ n ∷ words cs
words (maxstreams n ∷ cs) = codes "-maxstreams" ∷ n ∷ words cs
words (winsize n ∷ cs) = codes "-winsize" ∷ n ∷ words cs
words (framesize n ∷ cs) = codes "-framesize" ∷ n ∷ words cs
words (hdrsize n ∷ cs) = codes "-hdrsize" ∷ n ∷ words cs

module _ (strtoul0 : Bytes → ℕ × Bytes) where
  -- The number that a text gives, in 32 bits
  abbrev pub number_of : Bytes → ℕ
  number_of n = (strtoul0 n).0 % 2 ^ 32

  abbrev pub setting_of : Choice → Setting
  setting_of (push true) = (2, 1)
  setting_of (push false) = (2, 0)
  setting_of (hdrtbl n) = (1, number_of n)
  setting_of (maxstreams n) = (3, number_of n)
  setting_of (winsize n) = (4, number_of n)
  setting_of (framesize n) = (5, number_of n)
  setting_of (hdrsize n) = (6, number_of n)

  abbrev pub settings_of : List Choice → List Setting
  settings_of [] = []
  settings_of (c ∷ cs) = setting_of c ∷ settings_of cs

  -- A number, with nothing behind it
  abbrev pub IsNumber : Choice → Type 0
  IsNumber (push b) = Unit {0}
  IsNumber (hdrtbl n) = (strtoul0 n).1 ≡ []
  IsNumber (maxstreams n) = (strtoul0 n).1 ≡ []
  IsNumber (winsize n) = (strtoul0 n).1 ≡ []
  IsNumber (framesize n) = (strtoul0 n).1 ≡ []
  IsNumber (hdrsize n) = (strtoul0 n).1 ≡ []

  -- What an option does, where there is room
  abbrev put_bytes : Setting → Writing → Writing
  put_bytes s w = record w { buf = w.buf ++ encoded (s ∷ []) }

  abbrev resize_hp : Setting → Writing → Writing
  resize_hp s w = record w { hp = record (w.hp) { decctx = resized (s ∷ []) w.hp.decctx } }

  abbrev after : Choice → Writing → Writing
  after (push b) w = put_bytes (setting_of (push b)) w
  after (hdrtbl n) w = resize_hp (1, number_of n) (put_bytes (1, number_of n) w)
  after (maxstreams n) w = put_bytes (3, number_of n) w
  after (winsize n) w = init_window (number_of n) (put_bytes (4, number_of n) w)
  after (framesize n) w = put_bytes (5, number_of n) w
  after (hdrsize n) w = put_bytes (6, number_of n) w

  -- What all the options do, one after the other
  abbrev all_after : List Choice → Writing → Writing
  all_after [] w = w
  all_after (c ∷ cs) w = all_after cs (after c w)
