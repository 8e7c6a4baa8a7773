-- ===== src/Tests/ServiceExamples.antt =====
-- The service's theorems at a kernel that grants every request, with the hexadecimal codec.
use infernal_pf2e_parser_sim.Base.{
  suc, if◌then◌else◌, ℕ, pos, true, false, none, some, List, [], ◌∷◌, ◌++◌, ◌≡◌, refl, arith, All,
  is_empty,
}
use infernal_pf2e_parser_sim.Base.{length}
use infernal_pf2e_parser_sim.Std.Text.{Text, codes, text_eq}
use infernal_pf2e_parser_sim.Domain.{Candidate, feat}
use infernal_pf2e_parser_sim.Result.{ok, err}
use infernal_pf2e_parser_sim.Wire.{Json}
use infernal_pf2e_parser_sim.Kernel.{KernelPort, CandidateRepository, World, Call}
use infernal_pf2e_parser_sim.Client.Ensured.{Ensured, ensure_subscription-Ensured}
use infernal_pf2e_parser_sim.Client.{ensure_subscription, Signing, Serializer, Moment, client_port}
use infernal_pf2e_parser_sim.Client.Exchanges.{AllExchanged, client-AllExchanged}
use infernal_pf2e_parser_sim.Client.Admission.{client-IsJustified}
use infernal_pf2e_parser_sim.Wire.{Bytes}
use infernal_pf2e_parser_sim.Parser.{parse_candidates}
use infernal_pf2e_parser_sim.Dispatch.{dispatch, parse_action}
use infernal_pf2e_parser_sim.Dispatch.Scope.{parser_version, parse_input_scope, admit_scope_for}
use infernal_pf2e_parser_sim.Dispatch.Scope.Input.{input_scope, parse-input_scope}
use infernal_pf2e_parser_sim.Dispatch.Scope.Errors.{OnlyMalformed, parse_input_scope-OnlyMalformed}
use infernal_pf2e_parser_sim.Dispatch.Scope.Admit.{
  read_admit_scope, admit_fields, read-admit_scope_for,
}
use infernal_pf2e_parser_sim.Dispatch.Calls.{Explained, dispatch-Explained}
use infernal_pf2e_parser_sim.Work.Success.{work_once-ok, admissions}
use infernal_pf2e_parser_sim.Work.{WorkOutcome, work_once}
use infernal_pf2e_parser_sim.Work.Passes.{PassEnds, fetched, completion}
use infernal_pf2e_parser_sim.Work.Protocol.{work_once-Passes}
use infernal_pf2e_parser_sim.Work.Completion.{IsJustified}
use infernal_pf2e_parser_sim.Tests.Ascii.{ascii}
use infernal_pf2e_parser_sim.Tests.HexCodec.{hex_codec}
use infernal_pf2e_parser_sim.Tests.ParserTests.{one_id, ids}
use infernal_pf2e_parser_sim.Tests.Fixtures.{
  source, route, claim, request, willing, one_id-canonical, source-IsCarried,
}

abbrev toughness : Candidate
toughness = record {
  candidate_id = one_id;
  rule_type = feat;
  name = some (codes "Tough~ness");
  traits = [];
  trigger = none;
  requirements = [];
  effect = none;
  prerequisites = [];
  references = [];
  source_text = codes "Feat\nName: Tough~ness";
  inferences = [];
  confidence = 90;
}

-- a repository that parses anew each time and counts the parses
abbrev parsing : CandidateRepository ℕ
parsing = record {
  parse_once = λ version s count. (
    ok (record {
      source = s;
      candidates = parse_candidates ids s.source_text;
      was_already_processed = false;
    }),
    suc count,
  );
}

abbrev start : World ℕ
start = record { calls = []; store = 0 }

work_once-Passes_example :
    PassEnds hex_codec parsing willing
      (pos 30)
      start
      (work_once hex_codec parsing willing (pos 30) start)
work_once-Passes_example = work_once-Passes hex_codec parsing willing (pos 30) start

dispatch-Explained_example :
    Explained hex_codec willing parsing parse_action request.scope start
      (dispatch hex_codec parsing willing parse_action request.scope start)
dispatch-Explained_example =
    dispatch-Explained hex_codec willing parsing parse_action request.scope start

parse-input_scope_example : parse_input_scope hex_codec (input_scope hex_codec source) ≡ ok source
parse-input_scope_example = parse-input_scope hex_codec source source-IsCarried

parse_input_scope-OnlyMalformed_example :
    OnlyMalformed (parse_input_scope hex_codec (codes "a@b#c!d|e"))
parse_input_scope-OnlyMalformed_example =
    parse_input_scope-OnlyMalformed hex_codec (codes "a@b#c!d|e")

read-admit_scope_for_example :
    read_admit_scope (admit_scope_for hex_codec source toughness)
    ≡ some (admit_fields hex_codec source toughness)
read-admit_scope_for_example =
    read-admit_scope_for hex_codec source toughness one_id-canonical one_id-canonical (omega arith)

-- a decoder that knows one claim, and nothing else
abbrev one_claim : Json
one_claim = record {
  work_claim = λ body. if is_empty body then err (codes "EOF") else ok claim;
  eligible_routes = λ body. err (codes "EOF");
  routed_request = λ body. err (codes "EOF");
  subscriptions = λ body. err (codes "EOF");
  subscription = λ body. err (codes "EOF");
  renewed_lease = λ body. err (codes "EOF");
}

-- a signed request is its method, path and body; signing never fails
abbrev pub plain_signing : Signing
plain_signing = record {
  Parts = Text × Text × Bytes;
  Signed = Text × Text × Bytes;
  new_parts = λ method authority path content_type body id. ok (method, path, body);
  sign_parts = λ parts created expires nonce. ok parts;
}

-- a body is its first text, or nothing
abbrev pub plain_serializer : Serializer
plain_serializer = record {
  claim_request = λ seconds. ok [];
  fenced_action_request = λ token. ok [];
  create_subscription_request = λ event_type. ok event_type;
  renew_instance_request = λ revision. [];
  submission = λ action scope schema policy. ok scope;
}

-- the kernel answers 201 to whatever it is sent
abbrev noon : Moment (Text × Text × Bytes)
noon = record {
  request_id = one_id;
  now = pos 43200;
  nonce = ok (1 ∷ 2 ∷ []);
  send = λ signed. ok (record { status = 201; body = [] });
}

client-AllExchanged_example :
    AllExchanged plain_signing plain_serializer one_claim (codes "kernel") noon
client-AllExchanged_example =
    client-AllExchanged plain_signing plain_serializer one_claim (codes "kernel") noon

abbrev noon_port : KernelPort
noon_port = client_port plain_signing plain_serializer one_claim (codes "kernel") (λ h. noon)

client-IsJustified_example :
    (calls : List Call) × ((work_once hex_codec parsing noon_port (pos 30) start).1.calls
      ≡ [] ++ calls)
    × All (IsJustified hex_codec parsing noon_port (pos 30) start) calls
client-IsJustified_example =
    client-IsJustified plain_signing plain_serializer one_claim (codes "kernel") hex_codec parsing
      (λ h. noon) (pos 30) start

parse_action_known : text_eq parse_action parse_action ≡ true
unfolding text_eq
parse_action_known = refl

work_once-ok_example :
    let cs = parse_candidates ids source.source_text in
    work_once hex_codec parsing willing (pos 30) start ≡ (
      ok (
          WorkOutcome.completed
            (codes "r1")
            (record { candidate_count = length cs; was_already_processed = false })),
      record {
        calls =
            (fetched (pos 30) start route ++ admissions hex_codec parsing willing source cs)
            ++ completion willing claim ∷ [];
        store = (parsing.parse_once parser_version source start.store).1;
      },
    )
work_once-ok_example =
    work_once-ok hex_codec parsing willing (λ h action scope. refl)
      (λ h claim_id token. (claim, refl)) (pos 30) start route [] claim request source
      (record {
        source = source;
        candidates = parse_candidates ids source.source_text;
        was_already_processed = false;
      })
      refl refl refl parse_action_known parse-input_scope_example refl

-- the kernel lists one active subscription, to another action
abbrev pub one_subscription : Json
one_subscription = record one_claim {
  subscriptions = λ body. ok (
      record {
        id = codes "s1";
        service_id = codes "d1";
        event_type = codes "pf2e.parse.all";
        created_at = pos 1;
        disabled_at = none;
        active = true;
      }
      ∷ []);
}

abbrev pub listing : Moment (Text × Text × Bytes)
listing = record noon { send = λ signed. ok (record { status = 200; body = [] }) }

ensure_subscription-Ensured_example :
    Ensured plain_signing plain_serializer one_subscription
      (codes "kernel")
      parse_action
      listing
      noon
      (ensure_subscription plain_signing plain_serializer one_subscription
        (codes "kernel")
        parse_action
        listing
        noon)
ensure_subscription-Ensured_example =
    ensure_subscription-Ensured plain_signing plain_serializer one_subscription (codes "kernel")
      parse_action listing noon
