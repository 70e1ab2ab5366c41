-- ===== src/Tests/Data.antt =====
-- A small store, a runtime and a provider for the tests.
use musicfy.Prelude.{String, refl, true, false, none, some, [], ◌∷◌, arith, str_eq, if◌then◌else◌}
use musicfy.Titles.Derive.{Words}
use musicfy.Enums.{
  VoiceProfileStatus, JobType, JobStatus, JobStage, CreditSource, CreditLedgerKind,
  SubscriptionStatus, BillingProvider, StoreKitEnvironment, ProductKind,
}
use musicfy.Prelude.Int.{pos}
use musicfy.Platform.{Platform}
use musicfy.Json.{Json, Fields, end, field}
use musicfy.Bank.{Bank, Entry, Price, Product, Purchase, DedupKey, Key, RefType}
use musicfy.Billing.{Transaction}
use musicfy.Work.Rows.{Job, Work}
use musicfy.Work.Base.{done, failure, Submit, Settings}
use musicfy.Provider.{Fal, Media, broken, made}

-- Text in lower case, and a runtime that parses nothing.
abbrev pub runtime : Platform
runtime = record {
  lower = λ s. s;
  lower_idem = λ s. refl;
  upper = λ s. s;
  strip = λ s. s;
  prefix = λ n s. s;
  parse_int = λ s. none;
  from_timestamp = λ n. some n;
  parse_iso = λ s. none;
  show_int = λ n. "0";
  show = λ j. "value";
  parse_uuid = λ s. if str_eq s "user-1" then some 1 else none;
  show_uuid = λ n. "user-1";
  dumps = λ j. "{}";
  parse_float = λ s. none;
}

abbrev pub pack : Product
pack = record {
  external_product_id = "pack";
  kind = ProductKind.coin_pack;
  coins = 100;
  active = true;
}

abbrev pub weekly : Product
weekly = record {
  external_product_id = "weekly";
  kind = ProductKind.subscription;
  coins = 50;
  active = true;
}

abbrev pub old_purchase : Purchase
old_purchase = record {
  user_id = 2;
  product_external_id = "weekly";
  transaction_id = "t1";
  original_transaction_id = some "t1";
  environment = StoreKitEnvironment.production;
  dedup_key = DedupKey.production "t1";
}

abbrev pub pack_purchase : Purchase
pack_purchase = record {
  user_id = 1;
  product_external_id = "pack";
  transaction_id = "t2";
  original_transaction_id = none;
  environment = StoreKitEnvironment.production;
  dedup_key = DedupKey.production "t2";
}

abbrev pub first_grant : Entry
first_grant = record {
  user_id = 1;
  kind = CreditLedgerKind.credit_purchase;
  amount = pos 100;
  source = some CreditSource.purchase;
  ref_type = some RefType.transaction;
  idempotency_key = some (Key.purchase (DedupKey.production "t2"));
}

abbrev pub lyrics_price : Price
lyrics_price = record { job_type = "lyrics"; price_coins = 2; active = true }

abbrev pub song_price : Price
song_price = record { job_type = "song"; price_coins = 10; active = true }

-- User 1 bought 100 coins; user 2 has a subscription.
abbrev pub store : Bank
store = record {
  users = 1 ∷ (2 ∷ []);
  identities = [];
  wallets = (1, record { coins_available = 100; coins_reserved = 0 }) ∷ [];
  ledger = first_grant ∷ [];
  prices = song_price ∷ [];
  subscriptions =
      (
        2,
        record {
          status = SubscriptionStatus.active;
          provider = some BillingProvider.apple;
          product_external_id = some "weekly";
          original_transaction_id = some "t1";
          expires_at = none;
          will_renew = none;
        },
      )
      ∷ [];
  products = pack ∷ (weekly ∷ []);
  purchases = old_purchase ∷ (pack_purchase ∷ []);
  adapty_events = [];
}

abbrev pub transaction_of : String → String → Transaction
transaction_of id product = record {
  transaction_id = id;
  original_transaction_id = some id;
  product_id = product;
  environment = "Production";
  purchase_date_ms = Json.null;
  expires_date_ms = Json.null;
}

abbrev pub song : Job
song = record {
  user_id = 1;
  job_type = JobType.song;
  status = JobStatus.running;
  current_stage = some JobStage.music_generation;
  provider_model = none;
  provider_request_id = some "r1";
  reserved_credits = 10;
  captured_credits = 0;
  input_payload = field "prompt" (Json.str "rain") end;
  store_stems = false;
  client_idempotency_key = none;
  error_code = none;
}

-- One song, whose 10 coins are reserved.
abbrev pub studio : Work
studio = record {
  bank = record store { wallets = (1, record { coins_available = 90; coins_reserved = 10 }) ∷ [] };
  jobs = (7, song) ∷ [];
  stages = [];
  tracks = [];
  assets = [];
  webhooks = [];
  cases = [];
  consents = (1, record { user_id = 1; accepted = true }) ∷ [];
  profiles =
      (
        1,
        record {
          user_id = 1;
          provider_voice_id = none;
          status = VoiceProfileStatus.pending;
          sample_duration_seconds = none;
          sample_asset_url = some "sample";
          deleted = false;
        },
      )
      ∷ [];
}

abbrev pub submission : Submit
submission = record { request_id = "r2"; status_url = some "status"; response_url = none }

abbrev pub provider : Fal
provider = record {
  generate_lyrics = λ _ _ _ _. done "la la la";
  assist_text = λ _ _ _ _. failure "FAL_TIMEOUT" "slow";
  generate_track_title = λ _ _ _. failure "PROVIDER_FAILED" "down";
  submit_song = λ _ _ _ _ _. done submission;
  voice_clone = λ _. done "voice";
  submit_speech = λ _ _ _. done submission;
  submit_ace_step_vocal = λ _ _ _. done submission;
  submit_stable_audio = λ _ _ _. done submission;
  submit_stem_separation = λ _ _. done submission;
  submit_speech_to_speech = λ _ _ _. done submission;
  submit_voice_changer = λ _ _ _. done submission;
  submit_lipsync_video = λ _ _ _. done submission;
  submit_avatar_image_video = λ _ _ _. done submission;
  submit_image_to_video = λ _ _ _ _. done submission;
  submit_text_to_video = λ _ _ _. done submission;
  submit_lyrics_background = λ _ _ _. done submission;
}

abbrev pub words : Words
words = record {
  strip = λ s. s;
  strip_idem = λ s. refl;
  size-strip-le = λ s. omega arith;
  before_last_space = λ s. s;
  size-before-le = λ s. omega arith;
  file_name = λ s. some s;
  without_extension = λ s. s;
}

abbrev pub tools : Media
tools = record {
  words = words;
  ffmpeg_available = true;
  mix_music_and_vocal = λ _ _. made (some "mix") Json.null;
  build_instrumental = λ _. none;
  probe_duration = λ _. Json.int (pos 30);
  mux_audio_into_video = λ _ _. broken;
  render_lyrics_video = λ _ _ _ _. broken;
}

abbrev pub paid : Settings
paid = record { has_credits = true }

-- The runtime after the music and the voice.
abbrev pub both_stages : Fields
both_stages =
    field "music_generation" (Json.obj (field "media_url" (Json.str "music") end))
      (field "vocal_tts" (Json.obj (field "media_url" (Json.str "vocal") end)) end)
