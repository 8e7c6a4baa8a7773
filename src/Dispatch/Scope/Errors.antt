-- ===== src/Dispatch/Scope/Errors.antt =====
-- The errors of reading an input scope.
use infernal_pf2e_parser_sim.Std.Text.{Text}
use infernal_pf2e_parser_sim.Domain.{ParserError, malformed_scope}
use infernal_pf2e_parser_sim.Result.{Result, ok, err}
use infernal_pf2e_parser_sim.Codec.{Codec}
use infernal_pf2e_parser_sim.Dispatch.Scope.{parse_input_scope}
use infernal_pf2e_parser_sim.Dispatch.Scope.Typed.{Only, returned, rejected, parse_input_scope-Only}

-- a result that is a value or says that the scope is malformed
pub data OnlyMalformed {A : Type 0} : Result ParserError A → Type 0 where
  value : {a : A} → OnlyMalformed (ok a)
  unreadable : {why : Text} → OnlyMalformed (err (malformed_scope why))

Only-OnlyMalformed :
    {A : Type 0} {P : A → Type 0} {r : Result ParserError A} → Only P r → OnlyMalformed r
Only-OnlyMalformed (returned p) = value
Only-OnlyMalformed rejected = unreadable

-- Reading an input scope gives a source or fails with `malformed_scope`, never with another
-- error.
pub parse_input_scope-OnlyMalformed :
    (codec : Codec) (scope : Text) → OnlyMalformed (parse_input_scope codec scope)
parse_input_scope-OnlyMalformed codec scope =
    Only-OnlyMalformed (parse_input_scope-Only codec scope)
