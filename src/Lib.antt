-- ===== src/Lib.antt =====
-- Verification of Hearthold: the core by which authority is issued, attenuated, presented and used.
--
-- The parts and how they interact. A Sovereign issues a capability as the origin of a chain of
-- credentials; each holder may delegate a narrower one. A holder presents a chain to the Warden's
-- invocation monitor, which verifies it hop by hop, checks each hop's status list, asks the
-- challenge store whether the holder answered a fresh challenge, and then authorizes the act
-- against its ceiling, its discharges and the ledger of spent transactions. A capability that is
-- not a chain, a delegation and any other proof come as presentations, whose issuers are trusted by
-- a list or by a registry. Beside it stand the release decision, the escalation of spending and
-- control acts, the signed rulesets, under which guardians read a member's artefacts, the
-- allocation of status-list indices, selective disclosure and the closures that are kept.
--
-- Which file models which source, with paths from the repository's root:
--   Prelude: JavaScript strings, integers, options, arrays and sorting, for all parts.
--   Json: `canonicalize` of packages/core/src/attenuation.ts.
--   Attenuation, Attenuation/Verify: the rest of packages/core/src/attenuation.ts; the loop of
--     `verifyAttenuationChain` is `walk`, with one helper for each group of its checks.
--     Attenuation/Issue: `issueVc` there, over a keymaster with a state; Attenuation/Keymaster has
--     the laws that are relied on of one, and Attenuation/Wallet one that keeps them.
--   Capability: packages/core/src/capability.ts and `caveatsChainNarrows` of
--     packages/core/src/capability-chain.ts; Capability/Issuance: the rest of that file.
--   StatusList: packages/core/src/status-list.ts, the state being the resolver's cache.
--   SpentTxns: packages/core/src/single-use.ts, an interface with a law, and two ledgers; and the
--     mark of the file ledger with its read and its write apart.
--   Monitor: `authorizeInvocation` and `hasValidDischarge` of
--     packages/core/src/invocation-monitor.ts; Monitor/Presentation: `resolveChainInvocation` and
--     `makeHopStatusChecker` there; Monitor/SingleHop: `resolveInvocation` and
--     `verifyInvocation`. Monitor/Overlap: `authorizeInvocation` with what other calls do to the
--     ledger while it awaits.
--   Prove: packages/core/src/prove.ts; TrustRegistry: packages/core/src/trust-registry.ts.
--   Allocation: packages/core/src/allocation.ts, the state being the node's; the steps that others
--     take meanwhile are functions on it.
--   Closure: packages/core/src/closure.ts.
--   Disclosure: packages/core/src/selective-disclosure.ts.
--   Guardianship: packages/warden/src/guardianship.ts, the state being its two files.
--   Delegations: packages/warden/src/delegations.ts, over the file and the challenge gate.
--   ChallengeStore: packages/warden/src/challenge-store.ts, the state being the map of challenges.
--   Ruleset, Ruleset/Guardian: packages/core/src/ruleset.ts.
--   Security, Escalation: packages/core/src/security.ts and packages/core/src/escalation.ts.
--
-- State is passed explicitly, and a call that throws is a value of its own (`fault`, `threw`,
-- none). Strings are lists of UTF-16 code units and numbers are integers.
--
-- Overlapping calls. A call is one step on its state, as if it ran alone, but for two: the gaps
-- between the steps of `allocateIndex` and those between the reads and marks of
-- `authorizeInvocation` are filled by functions on the state that stand for other calls. The daemons
-- run handlers concurrently, so what is said of other calls one after another is not said of
-- overlapping ones. In particular two calls of `authorizeInvocation` that overlap can both be allowed
-- with one transaction, of which Monitor/OverlapTests has a run, and of two overlapping marks of the
-- file ledger one can be lost, which is why the laws of a ledger ask that a mark is one step: the
-- in-memory ledger's is, and the file ledger's only while no other mark overlaps it.
--
-- Bounds and fuel. `verifyAttenuationChain` loads at most `maxHops` hops, 64 unless the caller says
-- otherwise; the loop recurses on that number, which is the source's own bound. The loop of
-- `allocateIndex` recurses on the retries that are left, 8 unless the caller says otherwise; its
-- draws are a list, which the source bounds by 100000. The digits of a number recurse on fuel one
-- above the number. A status list has 131072 bits in 16384 bytes.
--
-- Parameters: the Archon node behind the keymaster (resolving, signing, verifying, creating
-- challenges), SHA-256, gzip, `Date.parse`, the clock, and the JSON that a typed value was read
-- from.
--
-- Not modelled: spending, the warden's other stores and its handlers, cosigning, the daemons,
-- transports, gateways and user interfaces. They call the modelled core, or the node.
mod Prelude
pub mod Security
pub mod Escalation
pub mod Json
pub mod Attenuation
pub mod Capability
pub mod StatusList
pub mod SpentTxns
pub mod Monitor
pub mod ChallengeStore
pub mod Ruleset
pub mod TrustRegistry
pub mod Prove
pub mod Allocation
pub mod Closure
pub mod Guardianship
pub mod Disclosure
pub mod Delegations
