-- ===== src/Lib.antt =====
-- A verification library for Contractor Reviewer, a service that reviews contracts.
--
-- The program is a NestJS application (apps/api) over a relational database, with shared types in
-- packages/shared and a web client. The library models the services that decide who may do what,
-- how long data is kept, how requests are limited, how texts are cut for retrieval, and how the
-- findings of a review are merged.
--
-- Common: Boolean tests on numbers and texts, lists measured by native numbers, membership, and the
--   falsy and nullish defaults of JavaScript.
-- Repository: TypeORM's `Repository<Row>`, a package that is not part of the repository, as a record
--   of operations and of the behaviour that its documentation states. Repository.InMemory is an
--   instance, which the examples run on; Repository.Lookup and Repository.Loops have the lemmas on
--   look-ups and on loops that remove rows.
-- Entities: apps/api/src/entities, the columns that a modelled operation reads or writes, and the
--   roles of packages/shared/src/enums/workspace.enum.ts.
-- Workspace: apps/api/src/workspace/workspace.service.ts, with createUserOnly and findByEmail of
--   apps/api/src/auth/auth.service.ts, which inviteMember calls (Workspace.Invitations). A call is a
--   function from the tables to a result or an exception and the tables, since a call that throws
--   may have written. Workspace.Listings has the two listings.
--   Workspace.Access has the two guards of apps/api/src/workspace/guards.
-- RateLimit: apps/api/src/rate-limit/rate-limit.guard.ts. The store is a function from keys to
--   entries. The clock is an argument, once for each reading.
-- Retention: apps/api/src/retention/retention.service.ts.
-- Purge: apps/api/src/retention/purge.service.ts, which asks Retention for each policy. Which
--   queries throw is an argument, `Faults`: those within the rounds of a loop, which catches them
--   and goes on, and those of the step for empty threads, which end the job. The query that begins a
--   loop answers.
-- Chunking: apps/api/src/rag/chunking.service.ts. Chunking.Text has the operations on strings,
--   Chunking.Headings the walk over the tokens of the Markdown lexer, Chunking.Paragraphs the loop
--   of chunkByParagraph over the blocks of a text.
-- Merge: apps/api/src/document-review/merge.service.ts.
-- Rules: apps/api/src/document-review/rules/rule-detector.service.ts. A regular expression is a
--   parameter: where it matches from a place on.
-- Review: apps/api/src/document-review/document-review.service.ts, which runs Rules, takes the
--   outcome of the language model as an argument, merges by Merge and stores a row (Review.Runs). A
--   document is read with its files.
-- Superadmin: apps/api/src/auth/superadmin.service.ts, over the tables of Workspace.
-- Threads: apps/api/src/documents/chat-thread.service.ts. The order in which the database answers
--   a page's query is an argument, since the code orders by the time alone.
-- Deletion: apps/api/src/documents/document-deletion.orchestrator.ts, over the tables and the object
--   storage of Purge, with invalidateDocument of apps/api/src/cache/rag-cache.service.ts.
-- Auth: apps/api/src/auth/auth.service.ts over the tables of Workspace: registration, sign-in, the
--   account and its deletion. Rows of other tables that the database removes with a user are not
--   modelled. bcrypt, MD5 and the signing of a token are parameters, and whether a
--   user has uploaded an avatar is one.
-- Encryption: apps/api/src/common/encryption.service.ts. Node's cipher, base64 and hexadecimal are a
--   parameter, with the laws that decryption undoes encryption and that a key of 32 bytes is taken
--   and another refused; Encryption.Toy is an instance.
-- Settings: apps/api/src/workspace/workspace-settings.service.ts over Encryption. Settings.Update has
--   updateSettings as a chain of steps that may throw, each from a row to a row. A key named
--   __proto__ is not modelled.
-- Prompts: apps/api/src/prompts/prompt.service.ts. Prompts.Template has interpolate, Prompts.Store
--   the writes, Prompts.Listing the listings, Prompts.Chat getChatPrompts. The long built-in texts
--   are an argument, and so is what an object inherits from Object.prototype.
-- Parsers: apps/api/src/parsers/parser-factory.service.ts; the adapters and the settings of the
--   workspace are an interface, `Parsers.Services`.
--
-- Names are those of the source in snake case: `update_member_role` models updateMemberRole.
--
-- Fuel. The loop of chunkByFixedSize recurs on fuel. It is given the length of the text and one
-- more, and each round moves the start by 800 code units at least, or ends. The loop over the matches
-- of a rule recurs on the rounds that the source's own bound leaves. All other loops are structural.
--
-- Numbers. Counts, days and milliseconds are natural numbers; JavaScript's numbers represent them
-- exactly below 2 ^ 53. The indices of chunks may be negative and are integers. A text is a list of
-- UTF-16 code units where its characters matter, and an opaque string elsewhere. Days are
-- 86,400,000 milliseconds each, as `setDate` adds them in a time zone without clock shifts.
--
-- Not modelled: logging, the HTTP layer beyond the guards, the split of a text into blocks by regular
-- expressions and the choice of strategy in ChunkingService; the listing of the parsers; the checks
-- of tokens and the preferences of a user, the parsers themselves, queues and workers, language
-- models and the contents of caches, and the web client. PROJECT.json lists them. Concurrent calls
-- on one table are modelled as one call after the other, but for the race of two instances in
-- Superadmin. The three writes of WorkspaceService.create and the two of inviteMember stand in no
-- transaction, and a failure of the database between them is not modelled.
pub mod Common
pub mod Repository
pub mod Entities
pub mod Auth
pub mod Chunking
pub mod Deletion
pub mod Encryption
pub mod Merge
pub mod Parsers
pub mod Prompts
pub mod Purge
pub mod RateLimit
pub mod Retention
pub mod Review
pub mod Rules
pub mod Settings
pub mod Superadmin
pub mod Threads
pub mod Workspace
