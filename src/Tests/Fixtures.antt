-- ===== src/Tests/Fixtures.antt =====
-- What the examples of the service share: a source, its request, and a willing kernel.
use infernal_pf2e_parser_sim.Base.{ℕ, pos, negsuc, true, List, [], ◌∷◌, ◌≡◌, refl, arith}
use infernal_pf2e_parser_sim.Std.Text.{codes}
use infernal_pf2e_parser_sim.Domain.{SourceReference}
use infernal_pf2e_parser_sim.Result.{ok}
use infernal_pf2e_parser_sim.Codec.{is_canonical}
use infernal_pf2e_parser_sim.Wire.{
  WorkClaim, claimed, EligibleRoute, RoutedRequest, found, completed,
}
use infernal_pf2e_parser_sim.Kernel.{KernelPort}
use infernal_pf2e_parser_sim.Dispatch.{parse_action}
use infernal_pf2e_parser_sim.Dispatch.Scope.Input.{input_scope, IsCarried}
use infernal_pf2e_parser_sim.Tests.HexCodec.{hex_codec}
use infernal_pf2e_parser_sim.Tests.ParserTests.{one_id}

-- 32 bytes
abbrev pub digest : List ℕ
digest =
    0 ∷ 1 ∷ 2 ∷ 3 ∷ 4 ∷ 5 ∷ 6 ∷ 7 ∷ 8 ∷ 9 ∷ 10 ∷ 11 ∷ 12 ∷ 13 ∷ 14 ∷ 15 ∷ 240 ∷ 241 ∷ 242 ∷ 243
    ∷ 244 ∷ 245 ∷ 246 ∷ 247 ∷ 248 ∷ 249 ∷ 250 ∷ 251 ∷ 252 ∷ 253 ∷ 254 ∷ 255 ∷ []

abbrev pub source : SourceReference
source = record {
  document_id = one_id;
  document_version = negsuc 6;
  content_digest = digest;
  location = codes "page 12";
  source_text = codes "Feat\nName: Toughness | Great\n---\nAction\nName: Stride";
}

abbrev pub route : EligibleRoute
route = record {
  route_id = codes "r1";
  request_id = codes "q1";
  subscription_id = codes "s1";
  destination_service_id = codes "d1";
  created_at = pos 1;
}

abbrev pub claim : WorkClaim
claim = record {
  claim_id = codes "c1";
  route_id = codes "r1";
  worker_service_id = codes "d1";
  worker_instance_id = codes "i1";
  fencing_token = pos 7;
  status = codes "active";
  claimed_at = pos 2;
  lease_expires_at = pos 32;
}

abbrev pub request : RoutedRequest
request = record {
  request_id = codes "q1";
  source_service_id = codes "x1";
  action = parse_action;
  scope = input_scope hex_codec source;
  artifact_schema_version_id = codes "a1";
  permission_policy_schema_version_id = codes "p1";
  accepted_at = pos 1;
}

-- a kernel that answers every call as the service hopes
abbrev pub willing : KernelPort
willing = record {
  eligible_routes = λ h. ok (route ∷ []);
  propose_claim = λ h r s. ok (claimed claim);
  routed_request = λ h r. ok (found request);
  complete_claim = λ h c t. ok (completed claim);
  submit_request = λ h a s. ok tt;
}

pub one_id-canonical : is_canonical one_id.canonical ≡ true
unfolding is_canonical
one_id-canonical = refl

pub source-IsCarried : IsCarried source
source-IsCarried = record {
  document_id = one_id-canonical;
  document_version = omega arith;
  content_digest = (refl, omega arith);
  location = λ e. cc;
  location_bar = omega arith;
  location_bang = omega arith;
}
