-- ===== src/Egress/Wired.antt =====
-- How the pointers of an output (src/outputs/egress-link-output.hpp) go with its statuses, the calls
-- that need an output or its encoders, and destroyPipeline of src/outputs/egress-link-output.cpp.
use src_link.Prelude.{
  refl, ◌≡◌, ap, ◌∙◌, Bool, true, false, ◌&&◌, ◌||◌, none, List, [], ◌∷◌, arith, if◌then◌else◌,
}
use src_link.Egress.State.{
  Status, RecordingStatus, is_status, Effect, start_output, stop_output, force_stop_output,
  set_encoders, Obs, Output,
}
use src_link.Egress.Status.{set_status, set_recording_status}
use src_link.Egress.Start.{sync}
use src_link.Egress.Pipeline.{
  release_recording, release_streaming, release_source, destroy_pipeline,
}

abbrev pub needs_stream : Status → Bool
needs_stream Status.activating = true
needs_stream Status.active = true
needs_stream Status.reconnecting = true
needs_stream Status.changing = true
needs_stream _ = false

abbrev pub needs_record : RecordingStatus → Bool
needs_record RecordingStatus.activating = true
needs_record RecordingStatus.active = true
needs_record _ = false

-- The output that a call names is there, and has both encoders when they are set.
abbrev pub is_safe : Effect → Bool
is_safe (start_output k present) = present
is_safe (stop_output k present) = present
is_safe (force_stop_output k present) = present
is_safe (set_encoders k video audio) = video && audio
is_safe _ = true

abbrev pub all_safe : List Effect → Bool
all_safe [] = true
all_safe (e ∷ es) = is_safe e && all_safe es

pub record Wired (o : Output) : Type 0 where
  pub streams : needs_stream o.status ≡ true → o.streaming_output ≡ true
  pub idle : is_status o.status Status.stand_by ≡ true → o.streaming_output ≡ false
  pub records : needs_record o.recording_status ≡ true → o.recording_output ≡ true
  pub encoded :
      o.streaming_output || o.recording_output ≡ true → o.video_encoder && o.audio_encoder ≡ true
  pub safe : all_safe o.effects ≡ true

pub set_status-Wired :
    (w : Obs) (s : Status) (o : Output)
    → (needs_stream s ≡ true → o.streaming_output ≡ true)
    → (is_status s Status.stand_by ≡ true → o.streaming_output ≡ false)
    → (needs_record o.recording_status ≡ true → o.recording_output ≡ true)
    → (o.streaming_output || o.recording_output ≡ true → o.video_encoder && o.audio_encoder ≡ true)
    → all_safe o.effects ≡ true
    → Wired (set_status w s o)
unfolding set_status
set_status-Wired w s o h1 h2 h3 h4 h5 = ground arith

pub set_recording_status-Wired :
    (w : Obs) (s : RecordingStatus) (o : Output)
    → (needs_record s ≡ true → o.recording_output ≡ true)
    → Wired o
    → Wired (set_recording_status w s o)
unfolding set_recording_status
set_recording_status-Wired w s o h1 h = ground arith

-- Nothing of the pipeline is left.
pub record Closed (o : Output) : Type 0 where
  pub streaming_output : o.streaming_output ≡ false
  pub recording_output : o.recording_output ≡ false
  pub service : o.service ≡ false
  pub video_encoder : o.video_encoder ≡ false
  pub audio_encoder : o.audio_encoder ≡ false
  pub source : o.source ≡ none
  pub source_view : o.source_view ≡ false
  pub audio_source : o.audio_source ≡ false
  pub audio_silence : o.audio_silence ≡ false

release_safe :
    (o : Output)
    → all_safe o.effects ≡ true
    → all_safe (release_source (release_streaming (release_recording o))).effects ≡ true
unfolding release_recording release_streaming release_source
release_safe o h = ground arith

set_status-Closed : (w : Obs) (s : Status) (o : Output) → Closed o → Closed (set_status w s o)
unfolding set_status
set_status-Closed w s o h = ground arith

set_recording_status-Closed :
    (w : Obs) (s : RecordingStatus) (o : Output) → Closed o → Closed (set_recording_status w s o)
unfolding set_recording_status
set_recording_status-Closed w s o h = ground arith

release-Closed : (o : Output) → Closed (release_source (release_streaming (release_recording o)))
unfolding release_recording release_streaming release_source
release-Closed o = ground arith

status-set_status : (w : Obs) (s : Status) (o : Output) → (set_status w s o).status ≡ s
unfolding set_status
status-set_status w s o = ground arith

recording_status-set_recording_status :
    (w : Obs) (s : RecordingStatus) (o : Output) → (set_recording_status w s o).recording_status ≡ s
unfolding set_recording_status
recording_status-set_recording_status w s o = ground arith

safe-set_status :
    (w : Obs) (s : Status) (o : Output)
    → all_safe o.effects ≡ true
    → all_safe (set_status w s o).effects ≡ true
unfolding set_status
safe-set_status w s o h = ground arith

safe-set_recording_status :
    (w : Obs) (s : RecordingStatus) (o : Output)
    → all_safe o.effects ≡ true
    → all_safe (set_recording_status w s o).effects ≡ true
unfolding set_recording_status
safe-set_recording_status w s o h = ground arith

status-set_recording_status :
    (w : Obs) (s : RecordingStatus) (o : Output) → (set_recording_status w s o).status ≡ o.status
unfolding set_recording_status
status-set_recording_status w s o = ground arith

-- `destroyPipeline` leaves nothing of the pipeline, and both statuses at those asked for, whatever
-- the output was doing.
pub destroy_pipeline-Closed :
    (w : Obs) (s : Status) (r : RecordingStatus) (o : Output)
    → Closed (destroy_pipeline w s r o)
      × ((destroy_pipeline w s r o).status ≡ s)
      × ((destroy_pipeline w s r o).recording_status ≡ r)
unfolding destroy_pipeline
destroy_pipeline-Closed w s r o = (
  set_recording_status-Closed w r _ (set_status-Closed w s _ (release-Closed o)),
  status-set_recording_status w r _ ∙ status-set_status w s _,
  recording_status-set_recording_status w r _,
)

Closed-Wired :
    (o : Output)
    → Closed o
    → needs_stream o.status ≡ false
    → needs_record o.recording_status ≡ false
    → all_safe o.effects ≡ true
    → Wired o
Closed-Wired o c s r h = ground arith

safe-destroy_pipeline :
    (w : Obs) (s : Status) (r : RecordingStatus) (o : Output)
    → all_safe o.effects ≡ true
    → all_safe (destroy_pipeline w s r o).effects ≡ true
unfolding destroy_pipeline
safe-destroy_pipeline w s r o h =
    safe-set_recording_status w r _ (safe-set_status w s _ (release_safe o h))

pub destroy_pipeline-Wired :
    (w : Obs) (s : Status) (o : Output)
    → needs_stream s ≡ false
    → Wired o
    → Wired (destroy_pipeline w s RecordingStatus.inactive o)
destroy_pipeline-Wired w s o e h =
    let (closed, status, rec) = destroy_pipeline-Closed w s RecordingStatus.inactive o in
    Closed-Wired _ closed (ap needs_stream status ∙ e) (ap needs_record rec)
      (safe-destroy_pipeline w s RecordingStatus.inactive o h.safe)

pub if_Wired : (b : Bool) (x y : Output) → Wired x → Wired y → Wired (if b then x else y)
if_Wired true x y h k = h
if_Wired false x y h k = k

pub sync-Wired : (o : Output) → Wired o → Wired (sync o)
sync-Wired o h = ground arith

pub when_Wired :
    (b : Bool) (x y : Output)
    → (b ≡ true → Wired x)
    → (b ≡ false → Wired y)
    → Wired (if b then x else y)
when_Wired true x y h k = h refl
when_Wired false x y h k = k refl
