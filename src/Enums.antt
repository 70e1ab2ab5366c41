-- ===== src/Enums.antt =====
-- The enumerations of app/domain/enums.py that the modelled code branches on.

pub data JobType : Type 0 where
  song lyrics cover voice_clone video : JobType

pub data JobStatus : Type 0 where
  created queued running post_processing completed failed canceled : JobStatus

pub data JobStage : Type 0 where
  prepare_prompt upload_cdn finalize lyrics music_generation vocal_tts mix_master : JobStage
  stem_separation voice_conversion consent_check quality_check voice_clone : JobStage
  source_prep lipsync visual_gen mux_audio lyrics_render : JobStage

unfoldable pub JobStage-discrete : Discrete JobStage
JobStage-discrete = hlevel

pub data StageStatus : Type 0 where
  pending running succeeded failed skipped : StageStatus

pub data CreditSource : Type 0 where
  subscription purchase promo : CreditSource

pub data CreditLedgerKind : Type 0 where
  credit_subscription_grant credit_purchase credit_promo debit_reserve : CreditLedgerKind
  debit_capture credit_release credit_refund debit_expire : CreditLedgerKind
  debit_adjustment credit_adjustment : CreditLedgerKind

pub data SubscriptionStatus : Type 0 where
  none active canceled expired : SubscriptionStatus

pub data BillingProvider : Type 0 where
  apple adapty : BillingProvider

pub data StoreKitEnvironment : Type 0 where
  production sandbox xcode : StoreKitEnvironment

pub data ProductKind : Type 0 where
  subscription coin_pack song_pack cover_pack video_pack mixed_pack : ProductKind

pub data TrackKind : Type 0 where
  song cover : TrackKind

pub data AuthProvider : Type 0 where
  apple guest device : AuthProvider

pub data VoiceProfileStatus : Type 0 where
  pending ready failed : VoiceProfileStatus
