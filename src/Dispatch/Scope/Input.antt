-- ===== src/Dispatch/Scope/Input.antt =====
-- The input scope that a requester writes for a source, and its reading.
use infernal_pf2e_parser_sim.Base.{
  ℕ, true, false, List, [], ◌∷◌, ◌++◌, ◌≡◌, ◌≢◌, refl, arith, All-append, is_empty, IsI64,
}
use infernal_pf2e_parser_sim.Std.Text.{Text}
use infernal_pf2e_parser_sim.Std.Text.Split.{Lacks, split_once-append}
use infernal_pf2e_parser_sim.Std.Decimal.{display_i64}
use infernal_pf2e_parser_sim.Std.Decimal.RoundTrip.{parse-display_i64}
use infernal_pf2e_parser_sim.Domain.{SourceReference}
use infernal_pf2e_parser_sim.Result.{ok}
use infernal_pf2e_parser_sim.Codec.{Codec, is_canonical, IsDigest}
use infernal_pf2e_parser_sim.Dispatch.Scope.{parse_input_scope, decode_digest}
use infernal_pf2e_parser_sim.Dispatch.Scope.Marks.{
  IsMark, bar, bang, hash, at_sign, canonical-Lacks, display_i64-Lacks, encode-Lacks,
}

-- A source whose pieces a scope can carry: the location is not empty and holds neither `|` nor
-- `!`, since the scope has no escapes.
pub record IsCarried (s : SourceReference) : Type 0 where
  pub document_id : is_canonical s.document_id.canonical ≡ true
  pub document_version : IsI64 s.document_version
  pub content_digest : IsDigest s.content_digest
  pub location : s.location ≢ []
  pub location_bar : Lacks b'|' s.location
  pub location_bang : Lacks b'!' s.location

module _ (codec : Codec) where
  -- `<document_id>@<document_version>`
  id_version : SourceReference → Text
  id_version s = s.document_id.canonical ++ (b'@' ∷ display_i64 s.document_version)

  -- the header's part in front of the digest
  id_version_location : SourceReference → Text
  id_version_location s = id_version s ++ (b'#' ∷ s.location)

  header : SourceReference → Text
  header s = id_version_location s ++ (b'!' ∷ codec.encode s.content_digest)

  -- `<document_id>@<document_version>#<location>!<content_digest_b64url>|<source_text>`
  pub input_scope : SourceReference → Text
  input_scope s = header s ++ (b'|' ∷ s.source_text)

  decode_digest_lem :
      (bytes : List ℕ) → IsDigest bytes → decode_digest codec (codec.encode bytes) ≡ ok bytes
  unfolding decode_digest
  decode_digest_lem bytes h = rw (codec.decode-encode bytes h, decode_digest) (ground arith)

  id_version-Lacks :
      {m : ℕ} (s : SourceReference) → IsMark m → b'@' ≢ m → IsCarried s → Lacks m (id_version s)
  unfolding id_version
  id_version-Lacks s mark ne h =
      All-append _ s.document_id.canonical _ (canonical-Lacks mark _ h.document_id)
        (ne, display_i64-Lacks mark s.document_version)

  id_version_location-Lacks :
      {m : ℕ} (s : SourceReference)
      → IsMark m
      → b'@' ≢ m
      → b'#' ≢ m
      → IsCarried s
      → Lacks m s.location
      → Lacks m (id_version_location s)
  unfolding id_version_location
  id_version_location-Lacks s mark ne ne' h l =
      All-append _ (id_version s) _ (id_version-Lacks s mark ne h) (ne', l)

  header-Lacks : (s : SourceReference) → IsCarried s → Lacks b'|' (header s)
  unfolding header
  header-Lacks s h =
      All-append _ (id_version_location s) _
        (id_version_location-Lacks s (bar refl) (omega arith) (omega arith) h h.location_bar)
        (omega arith, encode-Lacks (bar refl) codec s.content_digest)

  not_empty : (t : Text) → t ≢ [] → is_empty t ≡ false
  not_empty [] h = absurd (h refl)
  not_empty (c ∷ t) h = refl

  -- The scope that a requester writes for a source is read back as that source, with any source
  -- text, provided that the pieces are well formed and the location, not empty, holds neither `|`
  -- nor `!`.
  pub parse-input_scope :
      (s : SourceReference) → IsCarried s → parse_input_scope codec (input_scope s) ≡ ok s
  unfolding parse_input_scope input_scope header id_version_location id_version
  parse-input_scope s h =
      rw (split_once-append b'|' [] (header s) s.source_text (header-Lacks s h)) (
        rw
          (split_once-append b'!' [] (id_version_location s) (codec.encode s.content_digest)
            (id_version_location-Lacks s (bang refl) (omega arith) (omega arith) h h.location_bang))
          (rw
            (split_once-append b'#' [] (id_version s) s.location
              (id_version-Lacks s (hash refl) (omega arith) h))
            (rw
              (split_once-append b'@' [] s.document_id.canonical (display_i64 s.document_version)
                (canonical-Lacks (at_sign refl) _ h.document_id))
              (rw (codec.parse_uuid_canonical s.document_id.canonical h.document_id) (
                rw (parse-display_i64 s.document_version h.document_version) (
                  rw (not_empty s.location h.location)
                    (rw (decode_digest_lem s.content_digest h.content_digest) refl)))))))
