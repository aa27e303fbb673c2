-- ===== src/TrustRegistry.antt =====
-- packages/core/src/trust-registry.ts: registries that authorize an entity for an action, and the
-- assurance that a signed policy asks of one. The node's group test, the HTTP call and the asset
-- that holds a policy are parameters; messages are left out.
pub mod Laws
mod Tests
use hearthold.Prelude.{
  ℕ, Bool, true, false, not, ◌&&◌, Option, none, some, List, [], ◌∷◌, Text, get_or, is_some, eq_opt,
  leb, ◌===◌, if◌then◌else◌,
}
use hearthold.Ruleset.{
  SignedRuleset, AssuranceTier, factor1, factor2, Warden, RulesetCheck, signed, failed, tier_of,
  verify_ruleset_chain, active_ruleset, assurance_level,
}

pub record AuthorizationQuery : Type 0 where
  pub entity_id : Text
  pub action : Text
  pub resource : Option Text
  pub authority_id : Option Text

pub record AuthorizationResult : Type 0 where
  pub authorized : Bool
  pub entity_id : Option Text
  pub authority_id : Option Text
  pub action : Option Text
  pub resource : Option Text
  pub required_assurance : Option AssuranceTier

unfoldable pub meets_assurance : AssuranceTier → AssuranceTier → Bool
meets_assurance achieved required =
    leb (assurance_level (some required)) (assurance_level (some achieved))

-- Whatever answers a query; none where it throws.
abbrev pub TrustEvaluator : Type 0
TrustEvaluator = AuthorizationQuery → Option AuthorizationResult

-- What a remote registry answers: a response that is not `ok`, or the `authorized` of its body.
pub data HttpReply : Type 0 where
  not_ok unreachable : HttpReply
  body : Bool → HttpReply

abbrev refusal : AuthorizationResult
refusal = record {
  authorized = false;
  entity_id = none;
  authority_id = none;
  action = none;
  resource = none;
  required_assurance = none;
}

-- `a ?? b`
abbrev pub or_else : Option Text → Option Text → Option Text
or_else none b = b
or_else (some a) b = some a

unfoldable pub http_authorize : (AuthorizationQuery → HttpReply) → Text → TrustEvaluator
http_authorize fetch authority query = elim (fetch query) [
  | not_ok ↦ some refusal
  | unreachable ↦ some refusal
  | body answer ↦ some (record {
    authorized = answer;
    entity_id = some query.entity_id;
    authority_id = some (get_or query.authority_id authority);
    action = some query.action;
    resource = query.resource;
    required_assurance = none;
  })
]

pub record GroupBinding : Type 0 where
  pub action : Text
  pub resource : Option Text
  pub group : Text

-- `bindings.find(...)`
unfoldable pub find_binding : (GroupBinding → Bool) → List GroupBinding → Option GroupBinding
find_binding p [] = none
find_binding p (b ∷ bs) = if p b then some b else find_binding p bs

abbrev pub is_exact : AuthorizationQuery → GroupBinding → Bool
is_exact query b = b.action === query.action && eq_opt b.resource query.resource

abbrev pub is_wildcard : AuthorizationQuery → GroupBinding → Bool
is_wildcard query b = b.action === query.action && not (is_some b.resource)

-- `exact ?? wildcard`
unfoldable pub binding_for : List GroupBinding → AuthorizationQuery → Option GroupBinding
binding_for bindings query = elim (find_binding (is_exact query) bindings) [
  | some b ↦ some b
  | none ↦ find_binding (is_wildcard query) bindings
]

-- A registry over groups: the node's membership test, which may throw, the bindings, the authority
-- and the policy, if there is one.
pub record GroupTrustRegistry : Type 0 where
  pub test_group : Text → Text → Option Bool
  pub bindings : List GroupBinding
  pub authority_id : Option Text
  pub policy : Option (Text → Option Text → AssuranceTier)

abbrev pub is_member : GroupTrustRegistry → Option GroupBinding → Text → Bool
is_member r none entity = false
is_member r (some b) entity = get_or (r.test_group b.group entity) false

unfoldable pub group_authorize : GroupTrustRegistry → AuthorizationQuery → AuthorizationResult
group_authorize r query = record {
  authorized = is_member r (binding_for r.bindings query) query.entity_id;
  entity_id = some query.entity_id;
  authority_id = or_else query.authority_id r.authority_id;
  action = some query.action;
  resource = query.resource;
  required_assurance = elim r.policy [
    | none ↦ none
    | some policy ↦ some (policy query.action query.resource)
  ];
}

-- The assurance of a policy, from what the asset of its chain resolves to: none where it throws or
-- holds no array.
unfoldable pub required_assurance :
    Warden → Option Text → Option (List SignedRuleset) → Text → AssuranceTier
required_assurance w expected none action = factor1
required_assurance w expected (some []) action = factor1
required_assurance w expected (some (r ∷ rs)) action =
    elim (verify_ruleset_chain w expected (r ∷ rs)) [
      | failed f ↦ factor2
      | signed s ↦ elim (active_ruleset w expected (r ∷ rs)) [
        | none ↦ factor1
        | some head ↦ get_or (tier_of (get_or head.capabilities.assurance []) action) factor1
      ]
    ]
