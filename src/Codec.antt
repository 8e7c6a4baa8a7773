-- ===== src/Codec.antt =====
-- The uuid and base64 crates, as far as the source calls them: parameters, with what their
-- documentation says of them.
use infernal_pf2e_parser_sim.Base.{
  ℕ, zero, suc, [], ◌∷◌, if◌then◌else◌, ◌<◌, Bool, true, false, ◌&&◌, refl, arith, ◌||◌, Option,
  some, List, ◌≡◌, length, All, leb, ◌==◌,
}
use infernal_pf2e_parser_sim.Std.Text.{Text}
use infernal_pf2e_parser_sim.Domain.{Uuid}

abbrev pub is_hex : ℕ → Bool
is_hex c = (leb b'0' c && leb c b'9') || (leb b'a' c && leb c b'f')

-- `n` places for a hexadecimal digit, in front of the others
places : ℕ → List Bool → List Bool
places zero shape = shape
places (suc n) shape = true ∷ places n shape

-- groups of 8, 4, 4, 4 and 12 digits, with hyphens between them
canonical_shape : List Bool
unfolding places
canonical_shape =
    places 8 (false ∷ places 4 (false ∷ places 4 (false ∷ places 4 (false ∷ places 12 []))))

fits : List Bool → Text → Bool
fits [] [] = true
fits (digit ∷ shape) (c ∷ t) = (if digit then is_hex c else c == b'-') && fits shape t
fits _ _ = false

-- The text that `Uuid`'s `Display` writes: lower-case hexadecimal digits in five groups.
unfoldable pub is_canonical : Text → Bool
unfolding fits canonical_shape
is_canonical t = fits canonical_shape t

-- `A-Z a-z 0-9 - _`
abbrev pub is_url_safe : ℕ → Bool
is_url_safe c =
    (leb b'0' c && leb c b'9')
    || (leb b'a' c && leb c b'z')
    || (leb b'A' c && leb c b'Z')
    || c == b'-'
    || c == b'_'

abbrev pub IsDigest : List ℕ → Type 0
IsDigest bytes = (length bytes ≡ 32) × All (λ b. b < 256) bytes

pub record Codec : Type 0 where
  -- `Uuid::from_str`
  pub parse_uuid : Text → Option Uuid
  pub parse_uuid_canonical :
      (t : Text) → is_canonical t ≡ true → parse_uuid t ≡ some (record { canonical = t })
  -- `URL_SAFE_NO_PAD`
  pub encode : List ℕ → Text
  pub decode : Text → Option (List ℕ)
  pub encode_alphabet : (bytes : List ℕ) → All (λ c. is_url_safe c ≡ true) (encode bytes)
  pub decode-encode : (bytes : List ℕ) → IsDigest bytes → decode (encode bytes) ≡ some bytes

fits_chars :
    (shape : List Bool) (t : Text)
    → fits shape t ≡ true
    → All (λ c. (is_hex c || c == b'-') ≡ true) t
unfolding fits
fits_chars [] [] h = tt
fits_chars [] (c ∷ t) h = cc
fits_chars (d ∷ shape) [] h = cc
fits_chars (true ∷ shape) (c ∷ t) h = (ground arith, fits_chars shape t (ground arith))
fits_chars (false ∷ shape) (c ∷ t) h = (ground arith, fits_chars shape t (ground arith))

fits-length : (shape : List Bool) (t : Text) → fits shape t ≡ true → length t ≡ length shape
unfolding fits
fits-length [] [] h = refl
fits-length [] (c ∷ t) h = cc
fits-length (d ∷ shape) [] h = cc
fits-length (d ∷ shape) (c ∷ t) h = ground (arith, fits-length shape t)

-- A canonical text holds digits and hyphens only, so none of the marks of a scope.
pub is_canonical_chars :
    (t : Text) → is_canonical t ≡ true → All (λ c. (is_hex c || c == b'-') ≡ true) t
unfolding is_canonical
is_canonical_chars t = fits_chars canonical_shape t

pub length-canonical : (t : Text) → is_canonical t ≡ true → length t ≡ 36
unfolding is_canonical
length-canonical t = fits-length canonical_shape t
