-- ===== src/Lib.antt =====
-- A model of the core of the Sysnode backend: how signed masternode votes are relayed to Syscoin Core
-- and kept as receipts, how proposals are hashed and taken from a prepared row to the chain, how users
-- are reminded to vote, and the accounts, sessions, vaults and two-factor codes behind them.
--
-- The parts and the files that model them:
--   Base, Js, Eq, Results   numbers, text, JavaScript values, equality tests and thrown errors
--   Rows                    SQL tables: lists of rows, with UPDATE, DELETE, ORDER BY and unique keys
--   Receipts                lib/voteReceipts.js: Parse (parseVoteString, parseCurrentVotes), Table
--                           (normalizeReceiptInput), Upsert (upsert), Queries (the reads), Summary
--                           (summaryForUser), Cache (createCurrentVotesCache), Decide
--                           (decideRelay), Reconcile (reconcileForProposal)
--   Relay                   lib/gov.js: Codes (classifyRpcError), Visit and Batch (relayVotes), Pool
--                           (mapLimited), Validate (validateVoteBody), Lookup
--                           (validateLookupBody, lookupMatches)
--   Submissions             lib/proposalSubmissions.js: Types (mapRow and the reads), Create
--                           (create), Transitions (attachCollateral, updateConfirmations,
--                           markSubmitted, markFailed, remove), Machine (any sequence of them)
--   Dispatcher              lib/proposalDispatcher.js: Errors (isTerminalCoreError,
--                           isDuplicateCoreError), Advance (advance, tick)
--   Sessions                lib/sessions.js: issue, verify, revoke, revokeAllForUser, cleanupExpired
--   Vaults                  lib/vaults.js: get, put
--   Accounts                Email (lib/email.js), Pending (lib/pendingRegistrations.js), Verifications
--                           (lib/verifications.js), Users (lib/users.js)
--   Totp                    lib/totp.js: Base32, Codes (generateTotpCode, verifyTotp), Challenges (the
--                           setups, challenges and recovery codes)
--   ProposalHash            lib/proposalHash.js: the stream that is hashed and the two byte orders
--   Drafts                  lib/proposalDrafts.js: create, update, remove and the reads
--   Reminders               lib/reminderLog.js, lib/reminderProposals.js and lib/reminderDispatcher.js:
--                           the log and the tests, Proposals (parseReminderProposals), Tick (runTick,
--                           tick)
-- The modules named Tests run the definitions on small inputs. A relay asks Receipts.Decide before it
-- calls Core and writes with Receipts.Upsert; the dispatcher reads and moves the rows of Submissions; a
-- reminder asks Receipts.Queries whether the user has voted.
--
-- How the code is read:
--   * A repository's state is the list of the rows of its table with the next id. An operation takes
--     the table and returns the new one with its result; a thrown error is a value.
--   * Each SQL statement is atomic, and a transaction too. A function of the repositories runs to its end
--     without an await, so that only another process can write between two of its statements. Where
--     the code reads rows and then guards its write against such a process, or awaits between them, the
--     rows that it reads and the table that it writes are two arguments without any relation between
--     them: in the transitions of Submissions, in Dispatcher, Vaults, Reconcile, Sessions.verify, the two
--     redeem functions of Accounts, and enable_setup, verify_challenge and consume_recovery_code of
--     Totp. The theorems on guesses and on used recovery codes are about calls that run one after the
--     other, as those of one process do. A relayed batch decides on one table, and other requests may
--     write between the writes of its entries.
--   * Every other function runs on one state, among them those of Drafts and of Users.
--   * What comes from outside is an argument: the clock, random tokens, the answers of Core, a failing
--     database, what other workers do during a call, hashes, ciphers, base64 and the Unicode
--     normalization. Hooks, mails and calls to Core are a list of effects.
--   * mapLimited runs by a schedule, the order in which the calls of its workers resolve; a call that
--     rejects is turned into a result by the caller. Its model has no fuel.
--   * The ticks of the reminders run one after the other, as the flag in tick makes them; a second
--     process that writes the log between the test and the mail is not modelled.
--   * Text is a list of code points. toLowerCase acts on the ASCII letters, which is all that the
--     patterns and hex digits need; toUpperCase, which recovery codes go through, too, so that the few
--     other letters that JavaScript turns into ASCII ones, such as a dotless i, are taken to be absent. A pattern of fixed words is a search for those words.
--   * Times are milliseconds as natural numbers; a subtraction that could be negative is written as a
--     comparison of sums. The windows and the grace interval are natural numbers.
--   * Number of a run of digits is rounded to a double: the step between doubles is doubled up to
--     971 times, which reaches the largest double, so that the fuel of 972 is enough.
--   * Rows that compare equal under ORDER BY keep the order of the table. Users that a row refers to
--     exist; the deletion of a user's rows along with the user is not modelled. The deletion of a draft
--     unlinks the submissions made from it. The amount of a draft is taken to fit SQLite's integers.
--
-- Not modelled: the validation of proposals, recovery, sentries and privacy relayers, which are parts
-- of their own; the source of the reminders' snapshots, the routes, mail and RPC clients, which are
-- input and output; lib/kdf.js, whose results are arguments.
pub mod Base
pub mod Js
pub mod Eq
pub mod Results
pub mod Rows
pub mod Receipts
pub mod Submissions
pub mod Dispatcher
pub mod Relay
pub mod Sessions
pub mod Vaults
pub mod Accounts
pub mod Totp
pub mod ProposalHash
pub mod Reminders
pub mod Drafts
