-- ===== src/Tests/Ascii.antt =====
-- Case tables that know ASCII letters only: an instance that the assumptions on the tables allow.
use infernal_pf2e_parser_sim.Base.{◌||◌, map, refl}
use infernal_pf2e_parser_sim.Std.Text.{to_ascii_lowercase}
use infernal_pf2e_parser_sim.Std.Unicode.{
  Unicode, is_ascii_upper, is_ascii_lower, to_ascii_uppercase,
}

instance abbrev pub ascii : Unicode
ascii = record {
  to_lowercase = map to_ascii_lowercase;
  to_uppercase = to_ascii_uppercase;
  is_alphabetic = λ c. is_ascii_upper c || is_ascii_lower c;
  is_uppercase = is_ascii_upper;
  is_lowercase = is_ascii_lower;
  lowercase_ascii = λ s h. refl;
  uppercase_ascii = λ c h. refl;
  alphabetic_ascii = λ c h. refl;
  is_uppercase_ascii = λ c h. refl;
  is_lowercase_ascii = λ c h. refl;
}
