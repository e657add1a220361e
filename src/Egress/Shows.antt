-- ===== src/Egress/Shows.antt =====
-- The showing references on a source that an output holds (src/outputs/egress-link-output.cpp).
use src_link.Egress.Start.{start_streaming}
use src_link.Egress.Status.{set_recording_status, set_status}
use src_link.Prelude.{
  suc, none, [], ◌∙◌, str_eq, if◌then◌else◌, ◌∷◌, some, arith, ◌&&◌, false, ◌+◌, true, ◌≡◌, ℕ,
  Option, List, Bool, String,
}
use src_link.Egress.State.{
  is_recording, inc_showing, dec_showing, Effect, RecordingStatus, Status, Obs, Output,
}
use src_link.Egress.Pipeline.{
  is_sending, release_recording, release_streaming, destroy_pipeline, release_source,
}

-- How often a source was taken, and given back.
abbrev pub taken : String → List Effect → ℕ
taken u [] = 0
taken u (inc_showing v ∷ es) = (if str_eq v u then 1 else 0) + taken u es
taken u (_ ∷ es) = taken u es

abbrev pub given_back : String → List Effect → ℕ
given_back u [] = 0
given_back u (dec_showing v ∷ es) = (if str_eq v u then 1 else 0) + given_back u es
given_back u (_ ∷ es) = given_back u es

abbrev pub one_if : Bool → ℕ
one_if true = 1
one_if false = 0

-- The output's source is `u`.
abbrev pub has_source : String → Option String → Bool
has_source u none = false
has_source u (some v) = str_eq v u

-- The references of an output on its source: its own, the stream's and the recording's.
abbrev pub references : Output → ℕ
references o =
    1
    + one_if (o.streaming_output && is_sending o.status)
    + one_if (o.recording_output && is_recording o.recording_status RecordingStatus.active)

release-given_back :
    (u : String) (o : Output)
    → given_back u (release_source (release_streaming (release_recording o))).effects
      ≡ (if has_source u o.source then references o else 0) + given_back u o.effects
unfolding release_source release_streaming release_recording
release-given_back u o = ground arith

release-taken :
    (u : String) (o : Output)
    → taken u (release_source (release_streaming (release_recording o))).effects ≡ taken u o.effects
unfolding release_source release_streaming release_recording
release-taken u o = ground arith

set_status-given_back :
    (u : String) (w : Obs) (s : Status) (o : Output)
    → given_back u (set_status w s o).effects ≡ given_back u o.effects
unfolding set_status
set_status-given_back u w s o = ground arith

set_status-taken :
    (u : String) (w : Obs) (s : Status) (o : Output)
    → taken u (set_status w s o).effects ≡ taken u o.effects
unfolding set_status
set_status-taken u w s o = ground arith

set_recording_status-given_back :
    (u : String) (w : Obs) (s : RecordingStatus) (o : Output)
    → given_back u (set_recording_status w s o).effects ≡ given_back u o.effects
unfolding set_recording_status
set_recording_status-given_back u w s o = ground arith

set_recording_status-taken :
    (u : String) (w : Obs) (s : RecordingStatus) (o : Output)
    → taken u (set_recording_status w s o).effects ≡ taken u o.effects
unfolding set_recording_status
set_recording_status-taken u w s o = ground arith

-- `destroyPipeline` takes no reference on a source, and gives back as many as the output has on its
-- own source: its own, one for a stream that is active or reconnecting, and one for an active recording;
-- a stream that is changing has none of its own here. It touches no other source.
pub destroy_pipeline-given_back :
    (u : String) (w : Obs) (s : Status) (r : RecordingStatus) (o : Output)
    → (given_back u (destroy_pipeline w s r o).effects
        ≡ (if has_source u o.source then references o else 0) + given_back u o.effects)
      × (taken u (destroy_pipeline w s r o).effects ≡ taken u o.effects)
unfolding destroy_pipeline
destroy_pipeline-given_back u w s r o = (
  set_recording_status-given_back u w r _ ∙ set_status-given_back u w s _ ∙ release-given_back u o,
  set_recording_status-taken u w r _ ∙ set_status-taken u w s _ ∙ release-taken u o,
)

-- `startStreaming` on an output that is activating takes on its source just the references by which
-- its own grow, whether or not the stream starts.
pub start_streaming-taken :
    (u : String) (w : Obs) (o : Output)
    → o.status ≡ Status.activating
    → taken u (start_streaming w o).effects + (if has_source u o.source then references o else 0)
      ≡ taken u o.effects
        + (if has_source u (start_streaming w o).source
            then references (start_streaming w o)
            else 0)
unfolding start_streaming set_status
start_streaming-taken u w o e = ground arith

-- Only the status of the output changes.
changing_references :
    (w : Obs) (o : Output)
    → o.status ≡ Status.active
    → o.streaming_output ≡ true
    → suc (references (set_status w Status.changing o)) ≡ references o
unfolding set_status
changing_references w o e y = ground arith

changing_source : (w : Obs) (o : Output) → (set_status w Status.changing o).source ≡ o.source
unfolding set_status
changing_source w o = ground arith

-- A stream that is active and is then set to changing has its pipeline destroyed with one reference
-- fewer given back on the output's source than without the change: that of the stream.
pub changing-given_back :
    (u : String) (w w' : Obs) (s : Status) (r : RecordingStatus) (o : Output)
    → o.status ≡ Status.active
    → o.streaming_output ≡ true
    → has_source u o.source ≡ true
    → suc (given_back u (destroy_pipeline w s r (set_status w' Status.changing o)).effects)
      ≡ given_back u (destroy_pipeline w s r o).effects
changing-given_back u w w' s r o e y h =
    let changed = destroy_pipeline-given_back u w s r (set_status w' Status.changing o) in
    let kept = destroy_pipeline-given_back u w s r o in
    let same = set_status-given_back u w' Status.changing o in
    let now = changing_references w' o e y in let source = changing_source w' o in ground arith
