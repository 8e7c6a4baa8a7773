-- ===== src/Dispatch/Scope/Typed.antt =====
-- What is known of a source that was read from a scope.
use infernal_pf2e_parser_sim.Base.{
  ℕ, true, false, Bool, Option, none, some, List, [], ◌∷◌, ◌++◌, ◌≡◌, ◌≢◌, refl, ap, subst, ◌∙◌,
  length, ◌==◌, if◌then◌else◌, is_empty, IsI64, arith, Option-cases, inl, inr,
}
use infernal_pf2e_parser_sim.Std.Text.{Text, codes, split_once}
use infernal_pf2e_parser_sim.Std.Text.Split.{Lacks, split_once_sound, split_once-Lacks}
use infernal_pf2e_parser_sim.Std.Decimal.{parse_i64}
use infernal_pf2e_parser_sim.Std.Decimal.Range.{parse_i64-IsI64}
use infernal_pf2e_parser_sim.Domain.{ParserError, SourceReference, malformed_scope}
use infernal_pf2e_parser_sim.Result.{Result, ok, err, ok_or, ◌>>=◌}
use infernal_pf2e_parser_sim.Codec.{Codec}
use infernal_pf2e_parser_sim.Dispatch.Scope.{parse_input_scope, decode_digest}

-- a result that is a value of which this holds, or says that the scope is malformed
pub data Only {A : Type 0} (P : A → Type 0) : Result ParserError A → Type 0 where
  returned : {a : A} → P a → Only P (ok a)
  rejected : {why : Text} → Only P (err (malformed_scope why))

Only-ok : {A : Type 0} (P : A → Type 0) {a : A} → Only P (ok a) → P a
Only-ok P (returned p) = p

-- a chain that begins with an option
Only-first :
    {A B : Type 0} {P : B → Type 0} (o : Option A) (why : Text) (f : A → Result ParserError B)
    → ((a : A) → o ≡ some a → Only P (f a))
    → Only P (ok_or o (malformed_scope why) >>= f)
Only-first none why f h = rejected
Only-first (some a) why f h = h a refl

-- a chain that begins with a result
Only-bind :
    {A B : Type 0} {P : B → Type 0} (Q : A → Type 0) (m : Result ParserError A)
    (f : A → Result ParserError B)
    → Only Q m
    → ((a : A) → Q a → Only P (f a))
    → Only P (m >>= f)
Only-bind Q _ f (returned {a} q) h = h a q
Only-bind Q _ f rejected h = rejected

Only-if :
    {A : Type 0} {P : A → Type 0} (b : Bool) (m n : Result ParserError A)
    → (b ≡ true → Only P m)
    → (b ≡ false → Only P n)
    → Only P (if b then m else n)
Only-if true m n hm hn = hm refl
Only-if false m n hm hn = hn refl

cut : (p s : Text) {a b : Text} → split_once p s ≡ some (a, b) → s ≡ a ++ (p ++ b)
cut p s {a} {b} = split_once_sound p s a b

present_ne : (t : Text) → is_empty t ≡ false → t ≢ []
present_ne [] h = cc
present_ne (c ∷ t) h = λ e. cc

module _ (codec : Codec) where
  -- The pieces of a scope, and the source made of them.
  pub record Reads (scope : Text) (source : SourceReference) : Type 0 where
    pub id : Text
    pub version : Text
    pub digest : Text
    pub spells :
        scope
        ≡ (((id ++ (codes "@" ++ version)) ++ (codes "#" ++ source.location))
            ++ (codes "!" ++ digest))
          ++ (codes "|" ++ source.source_text)
    -- each mark is the first of its kind
    pub bar_first : Lacks b'|' (
        ((id ++ (codes "@" ++ version)) ++ (codes "#" ++ source.location)) ++ (codes "!" ++ digest))
    pub bang_first : Lacks b'!' ((id ++ (codes "@" ++ version)) ++ (codes "#" ++ source.location))
    pub hash_first : Lacks b'#' (id ++ (codes "@" ++ version))
    pub at_first : Lacks b'@' id
    pub id_read : codec.parse_uuid id ≡ some source.document_id
    pub version_read : parse_i64 version ≡ some source.document_version
    pub digest_read : codec.decode digest ≡ some source.content_digest
    pub version_range : IsI64 source.document_version
    pub digest_size : length source.content_digest ≡ 32
    pub location_present : source.location ≢ []

  abbrev IsDecoded : Text → List ℕ → Type 0
  IsDecoded text bytes = (codec.decode text ≡ some bytes) × (length bytes ≡ 32)

  decode_digest-Only : (text : Text) → Only (IsDecoded text) (decode_digest codec text)
  unfolding decode_digest
  decode_digest-Only text = elim (Option-cases (codec.decode text)) [
    | inl (bytes, e) ↦
        rw (e, decode_digest)
          (Only-if (length bytes == 32) (ok bytes) _ (λ long. returned (e, ground arith))
            (λ _. rejected))
    | inr e ↦ rw (e, decode_digest) rejected
  ]

  pub parse_input_scope-Only : (scope : Text) → Only (Reads scope) (parse_input_scope codec scope)
  unfolding parse_input_scope
  parse_input_scope-Only scope =
      Only-first (split_once (codes "|") scope) _ _ λ (header, source_text) e0.
        Only-first (split_once (codes "!") header) _ _ λ (place, digest) e1.
          Only-first (split_once (codes "#") place) _ _ λ (id_version, location) e2.
            Only-first (split_once (codes "@") id_version) _ _ λ (id, version) e3.
              Only-first (codec.parse_uuid id) _ _ λ document_id e4.
                Only-first (parse_i64 version) _ _ λ document_version e5.
                  Only-if (is_empty location) _ _ (λ _. rejected)
                    λ present.
                      Only-bind (IsDecoded digest) (decode_digest codec digest) _
                        (decode_digest-Only digest)
                        λ bytes (decoded, long).
                          let place_is =
                            cut (codes "#") place e2
                            ∙ ap (λ (t : Text). t ++ (codes "#" ++ location))
                                (cut (codes "@") id_version e3) in
                          let header_is =
                            cut (codes "!") header e1
                            ∙ ap (λ (t : Text). t ++ (codes "!" ++ digest)) place_is in
                          returned (record {
                            id = id;
                            version = version;
                            digest = digest;
                            spells =
                                cut (codes "|") scope e0
                                ∙ ap (λ (t : Text). t ++ (codes "|" ++ source_text)) header_is;
                            bar_first =
                                subst (Lacks b'|') header_is (split_once-Lacks b'|' scope _ _ e0);
                            bang_first =
                                subst (Lacks b'!') place_is (split_once-Lacks b'!' header _ _ e1);
                            hash_first =
                                subst (Lacks b'#') (cut (codes "@") id_version e3)
                                  (split_once-Lacks b'#' place _ _ e2);
                            at_first = split_once-Lacks b'@' id_version id version e3;
                            id_read = e4;
                            version_read = e5;
                            digest_read = decoded;
                            version_range = parse_i64-IsI64 version document_version e5;
                            digest_size = long;
                            location_present = λ empty. present_ne location present empty;
                          })

  -- A source that is read from a scope is well typed: its version is in the range of `i64`, its
  -- digest has 32 bytes, and its location is not empty. And it says all that the scope says: the
  -- scope is spelled by the texts of its identifier, version and digest, by its location and by
  -- its source text, with the marks `@`, `#`, `!` and `|` between them, each the first of its kind
  -- in what is in front of the marks behind it.
  pub parse_input_scope-Reads :
      (scope : Text) (source : SourceReference)
      → parse_input_scope codec scope ≡ ok source
      → Reads scope source
  parse_input_scope-Reads scope source h =
      Only-ok (Reads scope) (subst (Only (Reads scope)) h (parse_input_scope-Only scope))
