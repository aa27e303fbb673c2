-- ===== src/Capability.antt =====
-- packages/core/src/capability.ts and the pure parts of capability-chain.ts: caveats, capabilities
-- and their narrowing. A ceiling that is not a number is none. `locale_le` is the order of the
-- host's `localeCompare`.
pub mod Narrows
pub mod Chains
pub mod Normal
pub mod Issuance
pub mod Granted
mod Tests
mod GrantedTests
use hearthold.Prelude.{
  Bool, true, false, not, ◌&&◌, ◌||◌, Option, none, some, List, [], ◌∷◌, ◌++◌, map, Text, codes,
  get_or, is_some, is_filled, if◌then◌else◌, ◌===◌, eq_opt, text_leb, starts_with, includes,
  includes_all,
}
use hearthold.Prelude.Int.{ℤ, leb_ℤ}
use hearthold.Prelude.Sorting.{sort}
use hearthold.Attenuation.{AuthoritySet, is_subset}

pub record ThirdPartyCaveat : Type 0 where
  pub by : Text
  pub predicate : Text
  pub location : Option Text

pub record CapabilityStatus : Type 0 where
  pub status_list_credential : Text
  pub status_list_index : ℤ

pub record Caveats : Type 0 where
  pub ceiling : Option ℤ
  pub kinds : Option (List Text)
  pub owner : Option Text
  pub audience : Option Text
  pub expires : Option Text
  pub single_use : Option Bool
  pub requires_discharge : Option (List ThirdPartyCaveat)
  pub status : Option CapabilityStatus

pub record HearthholdCapability : Type 0 where
  pub id : Text
  pub controller : Text
  pub parent_capability : Option Text
  pub invocation_target : Text
  pub authority : AuthoritySet
  pub caveats : Caveats

unfoldable pub target_within : Text → Text → Bool
target_within child parent =
    child === parent
    || (starts_with (parent ++ codes "/") child
        || (starts_with (parent ++ codes "?") child || starts_with (parent ++ codes ":") child))

-- An absent or empty expiry is no bound.
unfoldable pub expires_within : Option Text → Option Text → Bool
expires_within child none = true
expires_within child (some []) = true
expires_within none (some (p ∷ ps)) = false
expires_within (some []) (some (p ∷ ps)) = false
expires_within (some (c ∷ cs)) (some (p ∷ ps)) = text_leb (c ∷ cs) (p ∷ ps)

-- `typeof child.ceiling === 'number' && … && child.ceiling <= parent.ceiling`
abbrev pub ceiling_within : Option ℤ → Option ℤ → Bool
ceiling_within none parent = false
ceiling_within (some c) none = false
ceiling_within (some c) (some p) = leb_ℤ c p

-- `parent === undefined || child === parent`
abbrev pub keeps_text : Option Text → Option Text → Bool
keeps_text child none = true
keeps_text child (some p) = eq_opt child (some p)

abbrev pub kinds_within : Option (List Text) → Option (List Text) → Bool
kinds_within child none = true
kinds_within none (some p) = false
kinds_within (some c) (some p) = includes_all p c

-- The key `${by}::${predicate}` of a discharge caveat.
abbrev pub discharge_key : ThirdPartyCaveat → Text
discharge_key c = c.by ++ codes "::" ++ c.predicate

abbrev pub discharge_keys : Option (List ThirdPartyCaveat) → List Text
discharge_keys discharges = map discharge_key (get_or discharges [])

unfoldable pub caveats_narrow : Caveats → Caveats → Bool
unfolding expires_within
caveats_narrow child parent =
    ceiling_within child.ceiling parent.ceiling
    && (keeps_text child.owner parent.owner
        && (keeps_text child.audience parent.audience
            && (expires_within child.expires parent.expires
                && (not (get_or parent.single_use false && not (get_or child.single_use false))
                    && (not (is_some parent.status && not (is_some child.status))
                        && (kinds_within child.kinds parent.kinds
                            && includes_all (discharge_keys child.requires_discharge)
                                (discharge_keys parent.requires_discharge)))))))

unfoldable pub capability_narrows : HearthholdCapability → HearthholdCapability → Bool
unfolding target_within caveats_narrow
capability_narrows child parent =
    eq_opt child.parent_capability (some parent.id)
    && (target_within child.invocation_target parent.invocation_target
        && (is_subset child.authority parent.authority
            && caveats_narrow child.caveats parent.caveats))

-- `caveatsChainNarrows`, over the caveats from the leaf to the root.
unfoldable pub caveats_chain_narrows : List Caveats → Bool
unfolding caveats_narrow
caveats_chain_narrows [] = true
caveats_chain_narrows (child ∷ []) = true
caveats_chain_narrows (child ∷ parent ∷ rest) =
    caveats_narrow child parent && caveats_chain_narrows (parent ∷ rest)

-- One insertion of the stable sort by `localeCompare` of the keys.
insert_discharge :
    (Text → Text → Bool) → ThirdPartyCaveat → List ThirdPartyCaveat → List ThirdPartyCaveat
insert_discharge locale_le c [] = c ∷ []
insert_discharge locale_le c (d ∷ ds) =
    if locale_le (discharge_key c) (discharge_key d)
    then c ∷ d ∷ ds
    else d ∷ insert_discharge locale_le c ds

sort_discharges : (Text → Text → Bool) → List ThirdPartyCaveat → List ThirdPartyCaveat
unfolding insert_discharge
sort_discharges locale_le [] = []
sort_discharges locale_le (c ∷ cs) = insert_discharge locale_le c (sort_discharges locale_le cs)

-- An empty array of kinds is left out.
normal_kinds : Option (List Text) → Option (List Text)
normal_kinds none = none
normal_kinds (some []) = none
normal_kinds (some (k ∷ ks)) = some (sort (k ∷ ks))

normal_discharges :
    (Text → Text → Bool) → Option (List ThirdPartyCaveat) → Option (List ThirdPartyCaveat)
unfolding sort_discharges
normal_discharges locale_le none = none
normal_discharges locale_le (some []) = none
normal_discharges locale_le (some (c ∷ cs)) = some (sort_discharges locale_le (c ∷ cs))

unfoldable pub normalize_caveats : (Text → Text → Bool) → Caveats → Caveats
unfolding normal_kinds normal_discharges
normalize_caveats locale_le c = record c {
  kinds = normal_kinds c.kinds;
  requires_discharge = normal_discharges locale_le c.requires_discharge;
}
