-- ===== src/Lib.antt =====
-- A verification library for role-model, a service that reads job postings, holds the career
-- profile of a user against them, and writes applications.
--
-- The parts that carry the program's own logic, and how they meet:
--   * The fit gate (internal/fitgate/scorer.go) compares the signals of a posting, which
--     internal/generation/extractor.go reads off its text, with the skills and the preferences of a
--     profile. Its levels start from internal/vocabulary/defaults.go. It reports a capability score
--     with gaps, matches and partial matches, and four lists of preferences.
--   * Intake (internal/intake) imports a career. ExtractCareer has a language model read a text,
--     PlanDrafts turns the answer into drafts with ids and dependencies, StageDrafts writes them with
--     flags for the reviewer, and the resolver (resolve.go) turns the drafts of a batch into rows, in
--     an order in which every dependency comes first.
--   * Stage 0 (internal/stage0/service.go) drafts contributions from a text, one batch at a time; a
--     person approves each draft, and only that writes a contribution.
--   * Generation (internal/generation) writes a resume. Modelled are the choice of the level whose
--     levers drive it, the sections it declares, the checklist of requirements, and the
--     reconciliation of its skills with its bullets.
--   * The rate limiter (internal/api/middleware/ratelimit.go) stands before the routes.
--
-- Files:
--   * Prelude: library names, tests of numbers, lists over the native numbers, integers.
--   * GoText: strings as rune sequences and what the program uses of packages strings and unicode.
--   * FitGate/Signals: the data (JDSignals, SkillLevel, Preference, ProficiencyLevel, SkillTerm).
--     FitGate/Tokens: tokenize, foldPlural, containsPhrase. FitGate/Alternatives:
--     splitAlternatives, collapseSubsumed, isSubset. FitGate/Levels: LevelScale, NewLevelScale,
--     defaultLevelScale, Rank, requiredLevelFor, strongestProficiency. FitGate/Matching:
--     matchesTerm, matchesSignal, preferenceMatches. FitGate/Skills: satisfies, appendUnique,
--     evidenceNames. FitGate/Capability: ScoreCapabilityFit, dedupeCompetencies, clampScore.
--     FitGate/Preferences: ScorePreferenceFit, prefFieldsFor, preferenceAnswered,
--     corePracticeAnswered. Their child modules hold the proofs and are named for what they prove.
--   * Intake/Ordering: topoOrder. Intake/Dates: parseDate, optionalDate. Intake/Payloads: the payload
--     types, their validate methods, ValidatePayload. Intake/Store: the tables, the statements of
--     internal/db and the monad of actions. Intake/TagVocabulary: ResolveOrCreateTag
--     (internal/intake/tags.go). Intake/Resolvers: payloadOf, parentOf, the resolver of each kind,
--     resolveOne. Intake/Approval: ResolveBatch, ApproveDraft, describeDependency.
--     Intake/Collisions: CheckPreferenceLabel and its helpers (internal/intake/collision.go).
--     Intake/Flags: the tests on new categories (internal/intake/flags.go).
--     Intake/Extraction: CareerExtraction, PlanDrafts (internal/intake/extract.go). Intake/Staging:
--     FlagDraft (flags.go), StageDrafts (extract.go), ExtractCareer, quoteJoin and stripFence
--     (career_extraction.go).
--   * Vocabulary: the levels and sections of a new account (internal/vocabulary/defaults.go).
--   * Generation/Words: namedIn. Generation/Reconcile: reconcileSkills and its helpers
--     (internal/generation/reconcile.go). Generation/Ladder: seniorityLevers, pickCareerLevel.
--     Generation/Sections: projectSections, fallbackSections. Generation/Checklist:
--     buildSkillsChecklist, writeSection (internal/generation/generate.go), forDocument,
--     seniorityEnum, extractText, stripCodeFence (internal/generation/extractor.go).
--   * RateLimit: NewRateLimit, allow, Handler, clientKey. RateLimit/Peers: how a server writes a
--     remote address. RateLimit/Window and RateLimit/Refinement hold the proofs; the specification
--     is a log of the hosts of the current window.
--   * Stage0: its tables, statements and the monad of its actions. Stage0/Tagging:
--     resolveSuggestedTags. Stage0/Approval: ApproveDraft. Stage0/Extraction: RunExtraction,
--     insertDrafts, RunEnrichment. Stage0/Outcomes has a rule for each way to build an action.
--   * Samples and Witnesses: tests at concrete inputs and instances of the theorems.
--
-- Choices: a string is a list of runes, so invalid UTF-8 does not occur, and the tables of package
-- unicode are an interface (the record Unicode), which the tests fill for ASCII. A Go map is a list
-- of its writes or of its entries; where the program ranges over a map the order does not reach the
-- result. Points are counted in halves and the score is an exact fraction, so the rounding of the
-- float64 quotient is left out. A uuid is a number. The store holds the rows of one account, since
-- every statement is filtered by the user. The record Outside holds what the store does not decide:
-- the ids of uuid.New, which statement fails (a lost connection or a constraint), the order of
-- a listing and the reading of a numeric; the record Json holds the decoding of
-- payloads, JsonWriter their encoding, Model the language model with its prompt, DocumentJson the
-- JSON of a document, Framings the two long texts of guidance; Stage0 has a
-- record Outside of its own, with the prompts and the answers of the model. A transaction that is left before its
-- commit is rolled back. An instant of the limiter is a number of nanoseconds and its limit is not
-- negative, as in the router; the mutex makes each request one step.
--
-- Bounds and fuel: the loops are structural recursion, but for the outer loop of topoOrder, which
-- has a round more than there are drafts: a round that goes on settles a draft; and for the search of
-- namedIn, which has a round more than the text has runes: a round that goes on moves by a rune.
--
-- Not modelled: the database and most of its generated queries, the handlers, JSON, the calls of
-- language models, the assembly of prompts, the command-line tools, and the parts in other languages.
pub mod FitGate
pub mod Generation
pub mod GoText
pub mod Intake
pub mod Prelude
pub mod RateLimit
pub mod Stage0
pub mod Vocabulary
