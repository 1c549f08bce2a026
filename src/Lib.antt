-- ===== src/Lib.antt =====
-- WaterX agent: a command line and a library with which a person, or a process that runs unattended,
-- trades on a perpetuals exchange. This library models the parts of it that decide what may be
-- signed and that keep a submission from happening twice.
--
-- Parts, and how they interact:
--   * src/policy.ts decides what may be signed. `PolicyGate.authorize` checks an intent against the
--     mode and the scope, counts its collateral, and issues a permit; `authorizeAndBuild` binds the
--     permit to the transaction that the backend built; `consume` spends it before the signature.
--     Policy/Intent holds `WriteIntent` and its fingerprint, Policy/Scope the scope and the rules
--     that read it alone, Policy/Gate `authorize`, Policy/Permits the other operations, and
--     Policy/Calls sequences of calls, in which the two halves of `authorizeAndBuild` are two steps
--     with any other calls between them.
--     Policy/Modes ranks the modes and offers the choices between them.
--   * src/agent/spend.ts is the ledger on disk that the gate's meter writes (Agent/Spend).
--   * src/agent/ledger.ts is a journal of JSON lines (Agent/Journal), in which src/agent/approvals.ts
--     keeps what people decided about plans (Agent/Approvals). scripts/agent/execute.ts submits a
--     plan that is approved (Agent/Execute); src/agent/submissions.ts keeps what was submitted and
--     what is not settled yet (Agent/Submissions).
--   * src/runner is the durable loop. Runner/Types are the jobs (types.ts), Runner/Store the
--     operations of the store on its list (store.ts), Runner/Schedule `enqueue` and `blockingJob`,
--     Runner/Reconcile the verdicts of reconcile.ts, Runner/Request the calls that `execute` makes,
--     Runner/State the runner's fields and `transition`, Runner/Submit `submit` and
--     `resolveAmbiguous`, Runner/Outcome `awaitOutcome`, Runner/Pass the rest of `tick`,
--     Runner/Failures the classification of errors (errors.ts), Runner/Stops the legs that are
--     larger than their position (agent/stops.ts). Runner/Moves is the abstract life cycle: the
--     moves that a job and the store can make, and what holds after any number of them.
--   * src/chain/verify.ts holds the bytes that are about to be signed to the intent
--     (`assertTransactionMatches`), with the deployment of src/chain/deployment.ts. Verify/Text
--     normalizes ids, Verify/Transaction is a decoded transaction, Verify/Encoding reads BCS values,
--     Verify/Bindings and Verify/Rules are the tables, Verify/Authorized is `authorized`,
--     Verify/Arguments is `checkArguments`, Verify/Code `assertCodeIsTheDeployments`, Verify/Shape
--     the checks of the shape, the payment, the gas and the layout, Verify/Grants
--     `assertGrantsReachEnforcedSlots`, Verify/Reach `reachableFrom`, Verify/Orders `checkOrders`,
--     and Verify/Match puts them together. The modules below these state what passing means in terms
--     of the transaction. What comes from elsewhere is the record `Host`: the decoder of the Sui
--     library, the text decoder of Node, the generated ABI and the recorded layouts.
--     Verify/Document walks a config document; Verify/Manifest is the deployment that it describes, and the cache of it
--     (`fetchDeployment` from the document on, `loadDeployment`, `assertCorpusDescribes`).
--   * src/units.ts turns display amounts into the raw integers of the chain: Units, and Units/Price for
--     `acceptablePriceFor`, whose product Units/Accurate holds to the exact one.
--
-- State is passed from step to step. What the agent, the chain, the backend and the file system
-- answer in a pass is one record, `Answers`, over which the theorems range; a crash is an answer too
-- (`dies_after_digest`, or `alive` at the next job). An error is a value. The digest of transaction
-- bytes (SHA-256 of node:crypto) is a parameter of the gate.
--
-- Numbers: instants, ids and counters are natural numbers. Amounts are `Number`: NaN, the two
-- infinities, or a finite value as an integer count of the smallest double, and a sum is the double
-- nearest to the exact one (Prelude/Doubles); only a sum beyond the largest double, above 10^308
-- dollars, is not made infinite. Where an operation takes `one`, so many of the unit make 1. What
-- `String` makes of a number comes with it. The pages of the history that the reconciler reads are at
-- most twenty, as in the source. The walk over a transaction has the number of its commands and one
-- more as fuel, which is enough (Verify/Reach/Ends); a number has at most as many digits as itself,
-- and one; a quotient is below two to its numerator, which bounds the search for the distance of the
-- doubles around it.
--
-- Not modelled: runs of the execute command that overlap, locks, flushes and file formats, the JSON
-- of the inbox, the wording of messages (notes and refusals are data), the HTTP client, the signer,
-- and loads of a deployment that share one request.
pub mod Prelude
pub mod Runner
pub mod Policy
pub mod Verify
pub mod Agent
pub mod Units
