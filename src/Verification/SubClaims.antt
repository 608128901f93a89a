-- ===== src/Verification/SubClaims.antt =====
-- Sub-claims of verification_contract.py: how the scanner's graph is decomposed into them.
pub mod Coverage
use Prim.Native.String.{◌++◌ as str_append}
use youk.Prelude.{
  String, Bool, true, false, not, Option, none, some, List, [], ◌∷◌, ◌++◌, map, ◌==◌, if◌then◌else◌,
  any, select, sort_by,
}
use youk.Verification.Stage.{
  Claim, SubClaim, Status, unverified, verified, failed, Level, internally_checked, Hint, Result,
  ok, raise, unsupported_dimension, decompose, intake, ◌>>=◌,
}

-- What the scanner found about one mechanism on one host.
pub record Info : Type 0 where
  pub wired : Bool
  pub evidence : Option String

-- The items of a dictionary from hosts, and of one from mechanisms.
abbrev pub Hosts : Type 0
Hosts = List (String × Info)

abbrev pub Graph : Type 0
Graph = List (String × Hosts)

abbrev pub is_verified : SubClaim → Bool
is_verified sc = elim sc.status [ verified ↦ true | unverified ↦ false | failed ↦ false ]

-- `Claim.unresolved` and `Claim.all_verified`
unfoldable pub unresolved : List SubClaim → List SubClaim
unfolding select
unresolved = select (λ sc. not (is_verified sc))

unfoldable pub all_verified : List SubClaim → Bool
unfolding any
all_verified subs = not (any (λ sc. not (is_verified sc)) subs)

abbrev pub sub_claim_id : String → String → String
sub_claim_id mechanism host = str_append mechanism (str_append ":" host)

-- `hints_by_sub_claim_id.get(id)`: `setdefault` keeps the first hint for an id.
unfoldable pub hint_for : String → List Hint → Option Hint
hint_for id [] = none
hint_for id (h ∷ hs) = if h.missed_sub_claim == id then some h else hint_for id hs

unfoldable pub sub_claim : List Hint → String → String × Info → SubClaim
unfolding hint_for
sub_claim hints mechanism (host, info) = record {
  id = sub_claim_id mechanism host;
  mechanism = mechanism;
  host = host;
  status = if info.wired then verified else failed;
  evidence = info.evidence;
  verification_level = internally_checked;
  pattern_hint = hint_for (sub_claim_id mechanism host) hints;
}

-- `le` is Python's order on texts.
module _ (le : String → String → Bool) where
  unfoldable pub from_hosts : List Hint → String → Hosts → List SubClaim
  unfolding sub_claim sort_by
  from_hosts hints mechanism hosts =
      map (sub_claim hints mechanism) (sort_by le (λ item. item.0) hosts)

  unfoldable pub from_sorted : List Hint → Graph → List SubClaim
  unfolding from_hosts
  from_sorted hints [] = []
  from_sorted hints ((mechanism, hosts) ∷ rest) =
      from_hosts hints mechanism hosts ++ from_sorted hints rest

  -- `hints` is what retrieve_similar_patterns answers, [] where the caller asks for no lookup.
  unfoldable pub generate_sub_claims : String → Graph → List Hint → Result (List SubClaim)
  unfolding from_sorted sort_by
  generate_sub_claims dimension graph hints =
      if dimension == "host"
      then ok (from_sorted hints (sort_by le (λ item. item.0) graph))
      else raise unsupported_dimension

  -- `build_claim`: the other fields have the defaults of the dataclass.
  unfoldable pub build_claim : String → String → Graph → List Hint → String → Result Claim
  unfolding generate_sub_claims
  build_claim statement dimension graph hints size =
      generate_sub_claims dimension graph hints >>= λ subs. ok (record {
        statement = statement;
        dimension = dimension;
        sub_claims = subs;
        stage = intake;
        stage_history = [];
        rework_rounds = 0;
        rework_log = [];
        size = size;
      })
