-- ===== src/Tests/HexCodec.antt =====
-- A codec that the assumptions on the uuid and base64 crates allow: each byte as two hexadecimal
-- digits.
use infernal_pf2e_parser_sim.Base.{
  ℕ, ◌+◌, ◌-◌, ap, ◌*◌, ◌/◌, ◌%◌, ◌<◌, true, Option, none, some, List, [], ◌∷◌, ◌≡◌, refl, ltb,
  if◌then◌else◌, arith, All,
}
use infernal_pf2e_parser_sim.Std.Text.{Text}
use infernal_pf2e_parser_sim.Domain.{Uuid}
use infernal_pf2e_parser_sim.Codec.{Codec, is_canonical, is_url_safe}

abbrev digit : ℕ → ℕ
digit n = if ltb n 10 then n + 48 else n + 87

abbrev digit_value : ℕ → ℕ
digit_value c = if ltb c 58 then c - 48 else c - 87

abbrev encode_hex : List ℕ → Text
encode_hex [] = []
encode_hex (b ∷ bytes) = digit (b / 16 % 16) ∷ digit (b % 16) ∷ encode_hex bytes

abbrev decode_hex : Text → List ℕ
decode_hex (h ∷ l ∷ rest) = (16 * digit_value h + digit_value l) ∷ decode_hex rest
decode_hex _ = []

digit-IsUrlSafe : (n : ℕ) → n < 16 → is_url_safe (digit n) ≡ true
digit-IsUrlSafe n h = ground arith

pub encode_hex-IsUrlSafe : (bytes : List ℕ) → All (λ c. is_url_safe c ≡ true) (encode_hex bytes)
encode_hex-IsUrlSafe [] = tt
encode_hex-IsUrlSafe (b ∷ bytes) = (
  digit-IsUrlSafe (b / 16 % 16) (omega arith),
  (digit-IsUrlSafe (b % 16) (omega arith), encode_hex-IsUrlSafe bytes),
)

digit_value-digit : (n : ℕ) → n < 16 → digit_value (digit n) ≡ n
digit_value-digit n h = ground arith

pub decode-encode_hex :
    (bytes : List ℕ) → All (λ b. b < 256) bytes → decode_hex (encode_hex bytes) ≡ bytes
decode-encode_hex [] h = refl
decode-encode_hex (b ∷ bytes) (small, rest) =
    rw
      (
        digit_value-digit (b / 16 % 16) (omega arith),
        digit_value-digit (b % 16) (omega arith),
        decode-encode_hex bytes rest,
      )
      (ap (λ (c : ℕ). c ∷ bytes) (omega (arith, small)))

abbrev parse_canonical : Text → Option Uuid
parse_canonical t = if is_canonical t then some (record { canonical = t }) else none

abbrev pub hex_codec : Codec
hex_codec = record {
  parse_uuid = parse_canonical;
  parse_uuid_canonical = λ t h. rw h refl;
  encode = encode_hex;
  decode = λ t. some (decode_hex t);
  encode_alphabet = encode_hex-IsUrlSafe;
  decode-encode = λ bytes (_, h). rw (decode-encode_hex bytes h) refl;
}
