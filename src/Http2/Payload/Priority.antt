-- ===== src/Http2/Payload/Priority.antt =====
-- What the priority fields of a HEADERS frame do to the streams (`parse_hdr` of src/vtc_http2.c).
use vtest.Base.{
  ℕ, ◌+◌, ◌/◌, ◌%◌, ◌^◌, ◌≤◌, ◌<◌, ◌≡◌, ◌≢◌, refl, ◌∙◌, ap, ◌⊎◌, inl, inr, List, [], ◌∷◌, ◌++◌, map,
  Bytes, length, Bool, true, false, ◌==◌, ret, arith, Bool-cases, ltb,
}
use native.Mathlib.Decide.{ℕ_discrete}
use vtest.Base.Int.{ℤ, pos, ◌+ℤ◌}
use vtest.Http2.Bytes.{vbe32enc}
use vtest.Http2.Frame.{Frame}
use vtest.Http2.State.{
  Http, Stream, has_flag, padded_flag, priority_flag, depend_on, exclusive_stream_dependency,
}
use vtest.Http2.Parse.{parsed}
use vtest.Http2.Parse.Control.{dependents, dependency_bits, bytes_value}
use vtest.Http2.Payload.{parse_hdr, signed8}
use vtest.Http2.Payload.Headers.{number, prioritised, reordered, parse_hdr-priority}

-- A stream under another that becomes the only one to depend on `dep`: where it depends on `dep` too, it
-- depends on that stream from now on, and nothing else of it changes.
abbrev pub Adopted : ℕ → ℕ → Stream → Stream → Type 0
Adopted id dep t u =
    ((t.id ≢ id) × (t.dependency ≡ dep) × (u ≡ record t { dependency = id }))
    ⊎ (((t.id ≡ id) ⊎ (t.dependency ≢ dep)) × (u ≡ t))

abbrev pub AllAdopted : ℕ → ℕ → List Stream → List Stream → Type 0
AllAdopted id dep [] [] = Unit {0}
AllAdopted id dep (t ∷ ts) (u ∷ us) = Adopted id dep t u × AllAdopted id dep ts us
AllAdopted id dep _ _ = ⊥

-- The connection before and after: only an exclusive dependency of a stream other than 0 changes it.
abbrev pub Moves : Bool → ℕ → ℕ → Http → Http → Type 0
Moves false id dep hp hp' = hp' ≡ hp
Moves true id dep hp hp' =
    ((id ≡ 0) × (hp' ≡ hp))
    ⊎ ((id ≢ 0)
        × (ss : List Stream) × (hp' ≡ record hp { streams = ss })
        × AllAdopted id dep hp.streams ss)

-- A byte as a signed char
abbrev pub IsChar : ℕ → ℤ → Type 0
IsChar b z = ((b < 128) × (z ≡ pos b)) ⊎ ((128 ≤ b) × (z +ℤ pos 256 ≡ pos b))

signed8-IsChar : (b : ℕ) → b < 256 → IsChar b (signed8 b)
unfolding ◌+ℤ◌
signed8-IsChar b h = elim (Bool-cases (ltb b 128)) [
  | inl low ↦ inl (ground arith, rw low refl)
  | inr high ↦ inr (ground arith, ground arith)
]

depend_on-Adopted : (s t : Stream) → Adopted s.id s.dependency t (depend_on s t)
depend_on-Adopted s t = elim (ℕ_discrete t.id s.id) [
  | yes same ↦ let own : (t.id == s.id) ≡ true = ground arith in inr (inl same, rw own refl)
  | no other ↦
      let away : (t.id == s.id) ≡ false = ground (arith, other) in
      elim (ℕ_discrete t.dependency s.dependency) [
        | yes sibling ↦
            let beside : (t.dependency == s.dependency) ≡ true = ground arith in
            inl (other, sibling, rw (away, beside) refl)
        | no apart ↦
            let off : (t.dependency == s.dependency) ≡ false = ground (arith, apart) in
            inr (inr apart, rw (away, off) refl)
      ]
]

map-AllAdopted :
    (s : Stream) (ts : List Stream) → AllAdopted s.id s.dependency ts (map (depend_on s) ts)
map-AllAdopted s [] = tt
map-AllAdopted s (t ∷ ts) = (depend_on-Adopted s t, map-AllAdopted s ts)

pub exclusive-Moves :
    (hp : Http) (s : Stream) → Moves true s.id s.dependency hp (exclusive_stream_dependency hp s)
unfolding exclusive_stream_dependency
exclusive-Moves hp s = elim (ℕ_discrete s.id 0) [
  | yes zero_id ↦ let root : (s.id == 0) ≡ true = ground arith in inl (zero_id, rw root refl)
  | no other ↦
      let stream : (s.id == 0) ≡ false = ground (arith, other) in
      inr (other, map (depend_on s) hp.streams, rw stream refl, map-AllAdopted s hp.streams)
]

pub dependents-Moves :
    (ex : Bool) (hp : Http) (s : Stream) → Moves ex s.id s.dependency hp (dependents ex hp s)
dependents-Moves true hp s = exclusive-Moves hp s
dependents-Moves false hp s = refl

-- The two cases of the bit for an exclusive dependency
reordered-Moves :
    (ex : Bool) (hp : Http) (s : Stream) (dep : ℕ)
    → dep < 2 ^ 31
    → s.dependency ≡ dep
    → Moves ex s.id dep hp (reordered hp s (dependency_bits dep ex))
reordered-Moves false hp s dep small e =
    let off : (dep / 2 ^ 31 == 0) ≡ true = ground (arith, small) in rw off refl
reordered-Moves true hp s dep small e =
    let on : ((dep + 2 ^ 31) / 2 ^ 31 == 0) ≡ false = ground (arith, small) in
    rw (on, ← e) (exclusive-Moves hp s)

low_bits :
    (ex : Bool) (dep : ℕ)
    → dep < 2 ^ 31
    → (dependency_bits dep ex % 2 ^ 31 ≡ dep) × (dependency_bits dep ex < 2 ^ 32)
low_bits true dep h = (omega arith, omega arith)
low_bits false dep h = (omega arith, omega arith)

-- A HEADERS frame with priority fields and without padding, shorter than 2 ^ 32, with a dependency below
-- 2 ^ 31, perhaps exclusive, and a weight byte: parse_hdr adds the block behind the fields to the buffer,
-- and sets the dependency and the weight of the stream, the weight to the byte as a signed char. Where
-- the dependency is exclusive and the stream is not 0, each other stream of the connection that has the
-- same dependency depends on this one from now on; nothing else of the connection changes.
pub parse_hdr-Moves :
    (hp : Http) (s : Stream) (f : Frame) (vsb : Bytes) (dep w : ℕ) (ex : Bool) (block : Bytes)
    → f.type ≡ 1
    → has_flag f.flags padded_flag ≡ false
    → has_flag f.flags priority_flag ≡ true
    → dep < 2 ^ 31
    → w < 256
    → f.content ≡ vbe32enc (dependency_bits dep ex) ++ w ∷ block
    → f.size ≡ length f.content
    → f.size < 2 ^ 32
    → (hp' : Http) × (z : ℤ) × (parse_hdr hp s f vsb
        ≡ ret (parsed hp' (record s { dependency = dep; weight = z }) f, vsb ++ block))
      × Moves ex s.id dep hp hp'
      × IsChar w z
unfolding vbe32enc
parse_hdr-Moves hp s f vsb dep w ex block ty no_pad prio small byte is sized fits =
    let n = dependency_bits dep ex in
    let (low, wide) = low_bits ex dep small in
    let s' = record s { dependency = dep; weight = signed8 w } in
    let value : number (n / 2 ^ 24 % 256) (n / 2 ^ 16 % 256) (n / 2 ^ 8 % 256) (n % 256) ≡ n =
      bytes_value n wide in
    let runs =
      parse_hdr-priority hp s f vsb (n / 2 ^ 24 % 256) (n / 2 ^ 16 % 256) (n / 2 ^ 8 % 256)
        (n % 256) w block ty no_pad prio is sized fits in
    (
      reordered hp s' n,
      signed8 w,
      runs
          ∙ ap
              (λ m.
                ret
                  (parsed (reordered hp (prioritised s m w) m) (prioritised s m w) f, vsb ++ block))
              value
          ∙ ap
              (λ d. ret (
                parsed (reordered hp (record s { dependency = d; weight = signed8 w }) n)
                    (record s { dependency = d; weight = signed8 w }) f,
                vsb ++ block,
              ))
              low,
      reordered-Moves ex hp s' dep small refl,
      signed8-IsChar w byte,
    )
