-- ===== src/Egress/Status.antt =====
-- src/outputs/egress-link-output.cpp: EgressLinkOutput::setStatus, ::setRecordingStatus and
-- ::updateStatistics.
use src_link.Prelude.{sub64, ℕ, ◌-◌, ◌*◌, ◌%◌, ◌^◌, Bool, ◌||◌, ◌∷◌, ltb, ◌==◌, if◌then◌else◌}
use src_link.ApiClient.Uplink.{
  Uplink, increment_active_outputs, decrement_active_outputs, increment_stand_by_outputs,
  decrement_stand_by_outputs,
}
use src_link.Egress.State.{
  Status, RecordingStatus, is_status, is_recording, WireStatus, Bitrate, zero_rate, fraction,
  Metric, Effect, put_statistics, statistics_updated, status_changed, recording_status_changed, Obs,
  Output,
}

abbrev pub emit : Effect → Output → Output
emit e o = record o { effects = e ∷ o.effects }

abbrev pub wire_status : Status → WireStatus
wire_status Status.active = WireStatus.active
wire_status Status.activating = WireStatus.standby
wire_status Status.reconnecting = WireStatus.reconnecting
wire_status Status.changing = WireStatus.standby
wire_status Status.stand_by = WireStatus.standby
wire_status Status.inactive = WireStatus.inactive
wire_status Status.error = WireStatus.inactive
wire_status Status.disabled = WireStatus.inactive

abbrev streaming_total : Obs → Output → ℕ
streaming_total w o = if o.streaming_output then w.total_bytes else 0

-- `bytesSent`: a total that fell is no progress.
abbrev bytes_sent : Obs → Output → ℕ
bytes_sent w o = let total = streaming_total w o in if ltb total o.last_bytes_sent then 0 else total

-- `lastBytesSent` as the difference uses it.
abbrev bytes_before : Obs → Output → ℕ
bytes_before w o = if bytes_sent w o == 0 then 0 else o.last_bytes_sent

abbrev bits_between : Obs → Output → ℕ
bits_between w o = (sub64 (bytes_sent w o) (bytes_before w o) * 8) % 2 ^ 64

unfoldable pub measured_bitrate : Obs → Output → Bitrate
measured_bitrate w o =
    let passed = sub64 w.time_ns o.last_bytes_sent_time in
    if ltb passed 10_000_000 then zero_rate else fraction (bits_between w o) passed

abbrev frames : ℕ → Output → ℕ
frames n o = if o.streaming_output then n else 0

-- The counts started again, so that the initial ones no longer apply.
abbrev frames_fell : Obs → Output → Bool
frames_fell w o =
    ltb (frames w.total_frames o) o.initial_total_frames
    || ltb (frames w.frames_dropped o) o.initial_dropped_frames

abbrev initial_total : Obs → Output → ℕ
initial_total w o = if frames_fell w o then 0 else o.initial_total_frames

abbrev initial_dropped : Obs → Output → ℕ
initial_dropped w o = if frames_fell w o then 0 else o.initial_dropped_frames

unfoldable pub measure : Obs → Output → Metric
unfolding measured_bitrate
measure w o = record {
  bitrate = measured_bitrate w o;
  total_frames = frames w.total_frames o - initial_total w o;
  dropped_frames = frames w.frames_dropped o - initial_dropped w o;
  total_size = streaming_total w o;
}

unfoldable pub update_statistics : Obs → Output → Output
update_statistics w o =
    let recording = is_recording o.recording_status RecordingStatus.active in
    emit (statistics_updated (measure w o)) (
      emit (put_statistics (wire_status o.status) recording (measure w o)) (record o {
        last_bytes_sent = bytes_sent w o;
        last_bytes_sent_time = w.time_ns;
        initial_total_frames = initial_total w o;
        initial_dropped_frames = initial_dropped w o;
        last_put_statistics_at = w.now;
      }))

abbrev pub leave_status : Status → Uplink → Uplink
leave_status Status.activating a = decrement_active_outputs a
leave_status Status.active a = decrement_active_outputs a
leave_status Status.stand_by a = decrement_stand_by_outputs a
leave_status Status.reconnecting a = decrement_active_outputs a
leave_status _ a = a

abbrev pub enter_status : Status → Uplink → Uplink
enter_status Status.activating a = increment_active_outputs a
enter_status Status.active a = increment_active_outputs a
enter_status Status.stand_by a = increment_stand_by_outputs a
enter_status Status.reconnecting a = increment_active_outputs a
enter_status _ a = a

unfoldable pub set_status : Obs → Status → Output → Output
unfolding update_statistics
set_status w value o =
    if is_status o.status value
    then o
    else emit (status_changed value) (
        update_statistics w
          (record o { api = enter_status value (leave_status o.status o.api); status = value }))

unfoldable pub set_recording_status : Obs → RecordingStatus → Output → Output
unfolding update_statistics
set_recording_status w value o =
    if is_recording o.recording_status value
    then o
    else emit (recording_status_changed value)
        (update_statistics w (record o { recording_status = value }))
