-- ===== src/Tests/ListCodec.antt =====
-- A codec that the assumption on serde_json allows: each text ends with a zero.
use infernal_pf2e_parser_sim.Base.{ℕ, zero, suc, Option, none, some, List, [], ◌∷◌, ◌≡◌, refl}
use infernal_pf2e_parser_sim.Std.Text.{Text}
use infernal_pf2e_parser_sim.Repository.Schema.{ListCodec}

-- the text, its end, and what follows
abbrev ended : Text → Text → Text
ended [] t = 0 ∷ t
ended (c ∷ v) t = suc c ∷ ended v t

abbrev encode_ended : List Text → Text
encode_ended [] = []
encode_ended (v ∷ vs) = ended v (encode_ended vs)

abbrev begin_text : Option (List Text) → Option (List Text)
begin_text none = none
begin_text (some vs) = some ([] ∷ vs)

abbrev add_char : ℕ → Option (List Text) → Option (List Text)
add_char c (some (v ∷ vs)) = some ((c ∷ v) ∷ vs)
add_char c _ = none

abbrev decode_ended : Text → Option (List Text)
decode_ended [] = some []
decode_ended (zero ∷ t) = begin_text (decode_ended t)
decode_ended (suc c ∷ t) = add_char c (decode_ended t)

decode-ended :
    (v t : Text) (vs : List Text)
    → decode_ended t ≡ some vs
    → decode_ended (ended v t) ≡ some (v ∷ vs)
decode-ended [] t vs h = rw h refl
decode-ended (c ∷ v) t vs h = rw (decode-ended v t vs h) refl

pub decode-encode_ended : (vs : List Text) → decode_ended (encode_ended vs) ≡ some vs
decode-encode_ended [] = refl
decode-encode_ended (v ∷ vs) = decode-ended v (encode_ended vs) vs (decode-encode_ended vs)

abbrev pub ended_texts : ListCodec
ended_texts = record {
  encode_list = encode_ended;
  decode_list = decode_ended;
  decode-encode_list = decode-encode_ended;
}
