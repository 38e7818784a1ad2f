-- ===== src/Lib.antt =====
-- The Glyph protocol: what a tool server promises with a signed card and a signed receipt, and
-- what a client checks before it runs a tool and before it hands a result on.
--
-- The program is a monorepo of TypeScript packages. `packages/core/src/index.ts` has the
-- canonical form of a JSON value, the hash over it, the identity and signature of a card, the
-- difference of two cards, receipts, manifests and the sanitizer of outputs.
-- `packages/server/src` is the HTTP server: it registers glyphs, hands out confirmation tickets
-- and runs calls behind a chain of gates. `packages/client/src` is the consumer: it pins approved
-- cards, gates each call by pins, provider trust and attestations, checks receipts, and audits
-- parked updates in the background. The server and the client share the core's functions and meet
-- in the sealed envelope. `packages/adapters` makes glyphs of OpenAPI operations and MCP tools,
-- and serves glyphs to MCP clients.
--
-- Files, in the order of dependence:
--   Prelude (Tests, Lists, Table, Decimal): Booleans, lists over native numbers, JavaScript maps
--     as association lists in insertion order, decimals.
--   Json (Order, Sorting, Laws, Texts, Complete): JSON values, `canonicalize` and
--     `JSON.stringify`.
--   Crypto: SHA-256 and ed25519 as parameters with the laws that are documented for them, and
--     `canonicalHash`.
--   Card (Identity, Depth, Diff/Laws, Diff/Approval, Diff/Detector): the card, `computeGlyphId`,
--     `signGlyph`, `verifyGlyph`, `applyDepth`, `toLexiconEntry`, `diffCards`.
--   Schema (Bounds): the limits on a JSON schema of `packages/core/src/json-schema-validator.ts`.
--   Attest (Digest, Bundles, Keyless, Segments): the verifiers of attestations, of
--     `packages/core/src/attestation.ts`, `packages/core/src/keyless.ts` and
--     `packages/client/src/attestation.ts`, with `JSON.parse` and base64 as parameters.
--   Sanitize (Strip, Clean): `sanitize`, with NFKC as a parameter.
--   Receipt (Signing): `signReceipt`, `verifyReceipt`, `signManifest`, `verifyManifest`,
--     `sealResult`.
--   Directory (Rooted): `packages/core/src/providers-registry.ts` and `discoverProviders`.
--   Keys (Chain, Status, Rotation, Remote): the key registry of
--     `packages/core/src/key-registry.ts`, with `Date.parse` as a parameter.
--   Server: Stores for `stores.ts`; Middleware for `middleware.ts` and `policy.ts`; Api for the
--     types, `readJson` and the state of a `GlyphServer`; Handlers and Call for the routes that
--     `setupRoutes` of `server.ts` installs, `register` and `registerManifest`; App for the two
--     middlewares in front of them, with Between for runs of requests; Define for `define.ts`.
--     Every handler maps a state to a reply and the next state. Ledger (Holdings, Refined) is the
--     abstract view of the tickets that Refined relates the routes to.
--   Client: Pins for `pins.ts`, `inspectCard`, `approveCard`, `revokeTool` and `inspectLexicon`;
--     Trust for `trust.ts`; Gate for `getCard`, `ensureApproved`, `enforceTrust`,
--     `ensureAttested`; Call for `call` and `verifyReceipt`; Promotion for `promotion-policy.ts`;
--     Audit for `getManifest`, `auditPending` and `processAudits`, with Runner for
--     `startAuditRunner` and the timers; Setup for the constructor and `production`; Requests for
--     `connect`, `getLexicon` and `prepare`, all of `index.ts`.
--   Browser (Agreement): `packages/verify-browser/src/verify.ts`, next to the core on bytes.
--   Adapters: Naming for `toKebab`; Mcp for `packages/adapters/mcp/src/index.ts`; OpenApi for
--     `packages/adapters/openapi/src/index.ts`, with Refs for `resolveRefs`, Cards for the cards,
--     Query for query strings, Security for credentials and Request for the handler and for how
--     `fetch` joins its headers (Wire); Bridge (with Lazy) for the two bridges of
--     `packages/adapters/mcp-server/src`.
--   Tests (Cards, Texts, Serving, Limiting, Calling, Auditing, Registry, Attesting, Adapting,
--     Starting): small values, on which the theorems are applied.
--
-- State is passed explicitly, and an `async` function is one step: what the clock, the network,
-- the handler and the random ids answer are arguments, one for each time that they are asked. A
-- step of the state machines (resolver, pins) is a constructor of a relation, and runs are
-- sequences of steps. The timers of the audit runner are the list of the live ones. Interleavings
-- inside one `async` function are covered where a theorem holds in any state, as for the single
-- turn of the audit loop. The audit pass that a call starts is counted and does not run inside
-- the call, two `/prepare` requests do not interleave at their waits, and of what a client asks
-- the server its state records the posted calls, not the requests for cards. Loops are recursion
-- on the list they walk. Only the resolution of references in an OpenAPI document runs on fuel,
-- one for each reference inside another, and there are never more of those than `$ref` texts. The
-- bounded sweep deletes at most 100 entries, as the code does.
--
-- Not modelled: the log, HTTP but for the joining of headers, files (a pin or trust file is what
-- it parses to), the clock of a handler (its outcome is an argument), numbers inside JSON (a
-- number is its printed text), the properties that JavaScript objects inherit, the validators
-- that zod and ajv build, and the packages that are I/O, floating point or tools: resolver,
-- attestation-sigstore, cli, conformance, exporter-otel, integrations, bench, examples and the
-- SDKs in other languages. The errors of the server and the client are values without their
-- texts. A card has the type that the code declares for it, and the clock does not go back while
-- a handler runs. What the platform does with URLs, percent codes and base64 is a parameter of
-- the adapters.
pub mod Prelude
pub mod Json
pub mod Crypto
pub mod Card
pub mod Attest
pub mod Sanitize
pub mod Schema
pub mod Receipt
pub mod Keys
pub mod Directory
pub mod Server
pub mod Client
pub mod Adapters
pub mod Browser
pub mod Tests
