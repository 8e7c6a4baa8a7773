-- ===== src/Std/Unicode.antt =====
-- The operations of `str` and `char` that read the Unicode Character Database. The tables are data
-- of Rust's standard library, so they are an instance argument here: the operations, with what
use infernal_pf2e_parser_sim.Base.{
  ℕ, ◌-◌, Bool, ◌&&◌, ◌||◌, [], ◌∷◌, map, ◌≡◌, ◌<◌, leb, if◌then◌else◌, All,
}
use infernal_pf2e_parser_sim.Std.Text.{Text, to_ascii_lowercase}

abbrev pub is_ascii_upper : ℕ → Bool
is_ascii_upper c = leb b'A' c && leb c b'Z'

abbrev pub is_ascii_lower : ℕ → Bool
is_ascii_lower c = leb b'a' c && leb c b'z'

abbrev pub to_ascii_uppercase : ℕ → Text
to_ascii_uppercase c = if is_ascii_lower c then (c - 32) ∷ [] else c ∷ []

abbrev pub IsAscii : Text → Type 0
IsAscii = All (λ c. c < 128)

pub record Unicode : Type 0 where
  -- `str::to_lowercase`, with its rule for a final sigma
  pub to_lowercase : Text → Text
  -- `char::to_uppercase`, which may give several characters
  pub to_uppercase : ℕ → Text
  pub is_alphabetic : ℕ → Bool
  pub is_uppercase : ℕ → Bool
  pub is_lowercase : ℕ → Bool
  pub lowercase_ascii : (s : Text) → IsAscii s → to_lowercase s ≡ map to_ascii_lowercase s
  pub uppercase_ascii : (c : ℕ) → c < 128 → to_uppercase c ≡ to_ascii_uppercase c
  pub alphabetic_ascii :
      (c : ℕ) → c < 128 → is_alphabetic c ≡ (is_ascii_upper c || is_ascii_lower c)
  pub is_uppercase_ascii : (c : ℕ) → c < 128 → is_uppercase c ≡ is_ascii_upper c
  pub is_lowercase_ascii : (c : ℕ) → c < 128 → is_lowercase c ≡ is_ascii_lower c
