-- ===== src/Lib.antt =====
-- Musicfy: the coins, the purchases, the pipelines and the provider of the backend (app/), modelled and proved.
--
-- The program is a FastAPI service over PostgreSQL. A user buys coins (App Store, Adapty), a
-- generation reserves them, a pipeline sends the work to the provider fal and ends it from a
-- webhook or a poller, and the coins are captured or released.
--
-- What stands for what:
--   * Prelude: results, a store that comes back after an error, tables. A database transaction that
--     raises gives back the store it began with (`transaction`).
--   * Enums: app/domain/enums.py. Platform: the parts of Python's runtime that the code calls, as
--     parameters. Json: decoded JSON values.
--   * Bank: the billing tables (app/domain/models/billing.py) and their repositories
--     (app/domain/repositories/credits.py, pricing.py). A unique key in the ledger is what makes a call
--     idempotent: `append_ledger` says if it was new.
--   * Wallet: `CoinWalletService` (app/domain/services/credits.py), one function for a method. Refinement
--     has what the wallet promises, as a machine without a ledger.
--   * Billing: `BillingService` (app/domain/services/billing_service.py) from the decoded transaction
--     on, with app/domain/repositories/products.py.
--   * Adapty: the webhook of Adapty: Parser for app/domain/providers/billing/adapty.py, Service for
--     app/domain/services/adapty_webhook_service.py and webhook_user_resolve.py. What the database takes of an
--     event is a parameter: it may refuse a body or a value.
--   * Work: jobs, stages and tracks (app/domain/repositories/jobs.py, tracks.py) beside the bank, and
--     `BasePipeline` (app/domain/services/pipelines/base.py). Runtime, Tracks and Settle are what the pipelines
--     of songs and covers share.
--   * Provider: what the pipelines call and do not implement, the provider and ffmpeg, as parameters
--     that may answer anything: a value, the provider's error, or another error of the client, which the
--     pipelines do not catch.
--   * Song: `SongPipeline` (app/domain/services/pipelines/song.py): Text for its pure helpers, Start for the
--     submission, Events for `advance` and `fail`, Finish for `_finalize`; Starts, Advances, Fallback,
--     Failures, Late and Settle prove how each of these ends.
--   * Cover: `CoverPipeline` (app/domain/services/pipelines/cover.py), its helpers in Stems.
--   * Video: `VideoPipeline` (app/domain/services/pipelines/video.py): Prompt for the prompts, Start for the
--     three modes, Finish for `advance` and `_finalize`.
--   * Voice: `VoiceClonePipeline` (app/domain/services/pipelines/voice_clone.py) with the consents and the
--     profiles of app/domain/repositories/voice.py.
--   * Fal: the client of the provider (app/domain/providers/fal): Http for the exchanges that it makes, which
--     are a parameter, Calls for its calls (client.py), Requests for the payloads of its submissions, Texts for
--     what it asks of the language model, Parsing for the events (parsing.py), Signature for the checks of
--     webhooks and the cache of fal's keys (signature.py, client.py).
--   * Delivery: Runner for `PipelineRunner` (app/domain/services/pipelines/runner.py), Webhook for the webhook of
--     fal (app/api/v1/webhooks.py) with its claims (app/domain/repositories/webhooks.py), Poller for `FalPoller`
--     (app/domain/services/poller.py). Once has the steps of the whole as a relation on the store; Frame and
--     Apart have what an event leaves alone, from the rules in Work.Frame.
--   * Generation: `GenerationService` (app/domain/services/generation_service.py), its screening of texts
--     (moderation_service.py) in Moderation, with the cases of blocked ones.
--   * Titles: app/domain/services/track_title.py and video_title.py.
--   * Subtitles: the lines, cues and stamps of app/domain/services/video_mux.py.
--   * Sessions: guests, tokens and the logout of `AuthService` (app/auth/sessions.py).
--   * RateLimit: `RateLimitMiddleware` (app/middleware/rate_limit.py).
--   * Recovery: `recover_orphan_jobs` (app/domain/services/recovery.py).
--   * Lyrics: `LyricsService` (app/domain/services/lyrics_service.py): Saga for the charge and the refund
--     around the provider's call, Drafts for the drafts.
--   * Merge: the move of a guest's rows (app/domain/services/merge.py).
--   * Admin: `AdminService` (app/domain/services/admin_service.py).
--   * Tests: a concrete store and runtime, and runs on them.
--
-- Numbers of coins are natural numbers, as the tables' CHECK constraints keep them; PostgreSQL's limit of
-- 32 bits on them is not modelled, nor is its refusal of texts that are too long or of a NUL, but for the
-- events of Adapty, where it is a parameter. UUIDs are numbers and timestamps are milliseconds; a float of a payload is
-- a number of millionths, and the times of the subtitles are exact. No code modelled here loops but over a
-- list, so no fuel is needed; the rounds of the poller are steps of the relation in Delivery.Once. Calls are
-- atomic: the row lock or the unique index that each takes orders them, and sequences of calls stand for
-- their interleavings.
--
-- Not modelled: the signature checks of the App Store, the exchanges of HTTP themselves, logs, the metadata of
-- a track, ffmpeg and storage, analytics and notifications; the
-- sign-in with Apple, the API but for the webhook of fal, the CRM and the migrations.
pub mod Prelude
pub mod Enums
pub mod Fal
pub mod Platform
pub mod Json
pub mod Bank
pub mod Wallet
pub mod Billing
pub mod Adapty
pub mod Work
pub mod Provider
pub mod Song
pub mod Cover
pub mod Video
pub mod Voice
pub mod Delivery
pub mod Generation
pub mod Titles
pub mod Subtitles
pub mod Merge
pub mod RateLimit
pub mod Sessions
pub mod Admin
pub mod Recovery
pub mod Lyrics
pub mod Tests
