-- ===== src/Video/Frame.antt =====
-- The pipeline of videos stays with its job (app/domain/services/pipelines/video.py).
use musicfy.Prelude.{ℕ, String, Option, none, some}
use musicfy.Work.Base.{crashed, done, failure, Submit, Reply, Settings}
use musicfy.Work.Runtime.{Stage}
use musicfy.Json.{Json, Fields}
use musicfy.Platform.{Platform}
use musicfy.Enums.{JobStage}
use musicfy.Work.Rows.{Job}
use musicfy.Work.Frame.{Framed, step_rules}
use musicfy.Provider.{Fal, Media, Made, broken, made}
use musicfy.Video.Start.{
  start_video, keep_video, reject, start_avatar, resolve_prompt, start_visual, start_lyrics,
  VideoMode, avatar_performance, visual_clip, lyrics_video, surprise_prompt, start_mode,
  start_known,
}
use musicfy.Video.Finish.{
  save_video, finalize_video, keep_mux, mux_audio, keep_render, render_lyrics, advance_clip,
  advance_video, fail_video,
}

Framed-keep_video :
    (id : ℕ) (stage : JobStage) (r : Reply Submit) → Framed id (keep_video id stage r)
unfolding keep_video
Framed-keep_video id stage (failure _ _) = search step_rules
Framed-keep_video id stage (crashed e) = search step_rules
Framed-keep_video id stage (done submit) = search step_rules

module _ (platform : Platform) (fal : Fal) (settings : Settings) (surprise : Option String)
    (id : ℕ) where
  Framed-reject : (stage : JobStage) → Framed id (reject platform fal settings surprise id stage)
  unfolding reject
  Framed-reject stage = search step_rules

  Framed-start_avatar :
      (p : Fields) (audio : Json)
      → Framed id (start_avatar platform fal settings surprise id p audio)
  unfolding start_avatar
  Framed-start_avatar p audio = search (step_rules, Framed-keep_video, Framed-reject)

  Framed-surprise_prompt :
      (o : Option String) → Framed id (surprise_prompt platform fal settings surprise id o)
  Framed-surprise_prompt none = search step_rules
  Framed-surprise_prompt (some picked) = search step_rules

  Framed-resolve_prompt :
      (p : Fields) → Framed id (resolve_prompt platform fal settings surprise id p)
  unfolding resolve_prompt
  Framed-resolve_prompt p = search (step_rules, Framed-surprise_prompt)

  Framed-start_visual : (p : Fields) → Framed id (start_visual platform fal settings surprise id p)
  unfolding start_visual
  Framed-start_visual p = search (step_rules, Framed-resolve_prompt, Framed-keep_video)

  Framed-start_lyrics : (p : Fields) → Framed id (start_lyrics platform fal settings surprise id p)
  unfolding start_lyrics
  Framed-start_lyrics p = search (step_rules, Framed-keep_video)

  Framed-start_mode :
      (mode : VideoMode) (p : Fields) (audio : Json)
      → Framed id (start_mode platform fal settings surprise mode id p audio)
  Framed-start_mode avatar_performance p audio = Framed-start_avatar p audio
  Framed-start_mode visual_clip p audio = Framed-start_visual p
  Framed-start_mode lyrics_video p audio = Framed-start_lyrics p

  Framed-start_known :
      (p : Fields) (mode : Option VideoMode)
      → Framed id (start_known platform fal settings surprise id p mode)
  Framed-start_known p none = Framed-reject _
  Framed-start_known p (some mode) = search (step_rules, Framed-start_mode, Framed-reject)

  pub Framed-start_video : (j : Job) → Framed id (start_video platform fal settings surprise id j)
  unfolding start_video
  Framed-start_video j = search (step_rules, Framed-start_known)

Framed-save_video :
    (id : ℕ) (url : String) (duration : Json) (captured : ℕ) (j : Option Job)
    → Framed id (save_video id url duration captured j)
unfolding save_video
Framed-save_video id url duration captured none = search step_rules
Framed-save_video id url duration captured (some j) = search step_rules

Framed-keep_mux : (id : ℕ) (url : String) (m : Made) → Framed id (keep_mux id url m)
unfolding keep_mux
Framed-keep_mux id url broken = search step_rules
Framed-keep_mux id url (made u d) = search step_rules

module _ (media : Media) (settings : Settings) (id : ℕ) where
  Framed-finalize_video :
      (url : String) (duration : Json) → Framed id (finalize_video media settings id url duration)
  unfolding finalize_video
  Framed-finalize_video url duration = search (step_rules, Framed-save_video) depth 12

  Framed-mux_audio :
      (url : String) (audio : Json) → Framed id (mux_audio media settings id url audio)
  unfolding mux_audio
  Framed-mux_audio url audio = search (step_rules, Framed-keep_mux)

  Framed-keep_render :
      (fallback : Json) (m : Made) → Framed id (keep_render media settings id fallback m)
  unfolding keep_render
  Framed-keep_render fallback broken = search step_rules
  Framed-keep_render fallback (made u d) = search (step_rules, Framed-finalize_video)

  Framed-render_lyrics :
      (background : String) (p : Fields) (fallback : Json)
      → Framed id (render_lyrics media settings id background p fallback)
  unfolding render_lyrics
  Framed-render_lyrics background p fallback = search (step_rules, Framed-keep_render)

  Framed-advance_clip :
      (j : Job) (stage : JobStage) (url : String) (duration : Json)
      → Framed id (advance_clip media settings id j stage url duration)
  unfolding advance_clip
  Framed-advance_clip j stage url duration =
      search (step_rules, Framed-render_lyrics, Framed-mux_audio, Framed-finalize_video)

  pub Framed-advance_video :
      (j : Job) (stage : JobStage) (r : Stage)
      → Framed id (advance_video media settings id j stage r)
  unfolding advance_video
  Framed-advance_video j stage r = search (step_rules, Framed-advance_clip)

  pub Framed-fail_video :
      (stage : JobStage) (code : String) → Framed id (fail_video media settings id stage code)
  unfolding fail_video
  Framed-fail_video stage code = search step_rules
