-- ===== src/Egress/Opened.antt =====
-- EgressLinkOutput::start (src/outputs/egress-link-output.cpp) with both encoders made: the outputs.
use src_link.Prelude.{
  ◌≡◌, refl, Bool, true, false, ◌&&◌, not, arith, Bool-cases, inl, inr, if◌then◌else◌,
}
use src_link.Egress.Link.{EgressSettings}
use src_link.Egress.State.{Status, RecordingStatus, is_status, Obs, Output}
use src_link.Egress.Status.{set_status, set_recording_status}
use src_link.Egress.Create.{create_streaming_output, create_recording_output}
use src_link.Egress.Start.{
  or_error, is_connected, streaming_or_error, recording_or_error, open_streaming, open_recording,
  activate_recording, activate_streaming, activate_outputs, open_outputs,
}
use src_link.Egress.Wired.{Wired, needs_record}

-- While `start` runs: with a connection the output does not stand by, and without one it has no
-- streaming output.
pub record Ready (o : Output) : Type 0 where
  pub wired : Wired o
  pub busy : is_connected o.connection ≡ true → is_status o.status Status.stand_by ≡ false
  pub free : is_connected o.connection ≡ false → o.streaming_output ≡ false

pub if_Ready :
    (b : Bool) (x y : Output)
    → (b ≡ true → Ready x)
    → (b ≡ false → Ready y)
    → Ready (if b then x else y)
if_Ready true x y h k = h refl
if_Ready false x y h k = k refl

pub error-Ready : (w : Obs) (o : Output) → Ready o → Ready (set_status w Status.error o)
unfolding set_status
error-Ready w o h = ground arith

pub or_error-Ready :
    (w : Obs) (r : Bool × Output) (rest : Output → Output)
    → Ready r.1
    → (r.0 ≡ true → Ready (rest r.1))
    → Ready (or_error w r rest)
unfolding or_error
or_error-Ready w (true, o) rest h k = k refl
or_error-Ready w (false, o) rest h k = error-Ready w o h

-- Ready, with both encoders.
pub record Encoded (o : Output) : Type 0 where
  pub ready : Ready o
  pub video : o.video_encoder ≡ true
  pub audio : o.audio_encoder ≡ true

error-Encoded : (w : Obs) (o : Output) → Encoded o → Encoded (set_status w Status.error o)
unfolding set_status
error-Encoded w o h = ground arith

recording-Encoded :
    (w : Obs) (s : RecordingStatus) (o : Output)
    → (needs_record s ≡ true → o.recording_output ≡ true)
    → Encoded o
    → Encoded (set_recording_status w s o)
unfolding set_recording_status
recording-Encoded w s o r h = ground arith

create_streaming_output-Encoded :
    (w : Obs) (e : EgressSettings) (o : Output)
    → is_connected o.connection ≡ true
    → o.streaming_output ≡ false
    → Encoded o
    → Encoded (create_streaming_output w e o).1
unfolding create_streaming_output
create_streaming_output-Encoded w e o c n h = ground arith

streaming_or_error-Encoded :
    (w : Obs) (r : Bool × Output) → Encoded r.1 → Encoded (streaming_or_error w r)
streaming_or_error-Encoded w (true, o) h = h
streaming_or_error-Encoded w (false, o) h = error-Encoded w o h

open_streaming-Encoded :
    (w : Obs) (e : EgressSettings) (o : Output) → Encoded o → Encoded (open_streaming w e o)
unfolding open_streaming
open_streaming-Encoded w e o h =
    elim (Bool-cases (not o.streaming_output && is_connected o.connection)) [
      | inl y ↦ rw y (
          streaming_or_error-Encoded w _
            (create_streaming_output-Encoded w e o (ground arith) (ground arith) h))
      | inr n ↦ rw n h
    ]

create_recording_output-Encoded :
    (w : Obs) (e : EgressSettings) (o : Output)
    → o.recording_output ≡ false
    → Encoded o
    → Encoded (create_recording_output w e o).1
unfolding create_recording_output
create_recording_output-Encoded w e o n h = ground arith

recording_or_error-Encoded :
    (w : Obs) (r : Bool × Output) → Encoded r.1 → Encoded (recording_or_error w r)
recording_or_error-Encoded w (true, o) h = h
recording_or_error-Encoded w (false, o) h = recording-Encoded w RecordingStatus.error o (λ e. cc) h

open_recording-Encoded :
    (w : Obs) (e : EgressSettings) (o : Output) → Encoded o → Encoded (open_recording w e o)
unfolding open_recording
open_recording-Encoded w e o h =
    elim (Bool-cases (not o.recording_output && o.settings.recording)) [
      | inl y ↦
          rw y (
            recording_or_error-Encoded w _ (create_recording_output-Encoded w e o (ground arith) h))
      | inr n ↦ rw n h
    ]

activate_recording-Encoded :
    (w : Obs) (b : Bool) (o : Output) → Encoded o → Encoded (activate_recording w b o)
unfolding activate_recording
activate_recording-Encoded w b o h = elim (Bool-cases (b && o.recording_output)) [
  | inl y ↦ rw y (recording-Encoded w _ o (λ _. ground arith) h)
  | inr n ↦ rw n h
]

activate_streaming-Encoded :
    (w : Obs) (b : Bool) (o : Output) → Encoded o → Encoded (activate_streaming w b o)
unfolding activate_streaming set_status
activate_streaming-Encoded w b o h = ground arith

activate_outputs-Encoded :
    (w : Obs) (b : Bool) (o : Output) → Encoded o → Encoded (activate_outputs w b o)
unfolding activate_outputs
activate_outputs-Encoded w b o h =
    elim (Bool-cases (not o.streaming_output && not o.recording_output)) [
      | inl y ↦ rw y h
      | inr n ↦ rw n (activate_streaming-Encoded w b _ (activate_recording-Encoded w b o h))
    ]

pub open_outputs-Encoded :
    (w : Obs) (b : Bool) (e : EgressSettings) (o : Output)
    → Encoded o
    → Encoded (open_outputs w b e o)
unfolding open_outputs
open_outputs-Encoded w b e o h =
    activate_outputs-Encoded w b _ (open_recording-Encoded w e _ (open_streaming-Encoded w e o h))
