-- ===== src/Egress/Statistics.antt =====
-- The numbers of EgressLinkOutput::updateStatistics (src/outputs/egress-link-output.cpp).
use src_link.Egress.State.{fraction, zero_rate, Output, Obs}
use src_link.Egress.Status.{measured_bitrate}
use src_link.Prelude.{
  sub64-small, ◌*◌, arith, true, ◌-◌, ◌≡◌, ◌^◌, ◌==◌, ◌<◌, ltb, ◌≤◌, if◌then◌else◌, ℕ,
}

-- The bytes that went out since the last measurement: a total that fell counts for nothing.
abbrev pub progress : ℕ → ℕ → ℕ
progress total last = if ltb total last then 0 else if total == 0 then 0 else total - last

-- If OBS counts less than 2^61 bytes and the clock does not go back, then the bitrate that is
-- measured over ten milliseconds or more is eight times the bytes that were added since the last
-- measurement over the time since then, none if the total fell, and no subtraction wraps; over a
-- shorter time it is 0.
pub measured_bitrate-progress :
    (w : Obs) (o : Output)
    → o.streaming_output ≡ true
    → w.total_bytes < 2 ^ 61
    → o.last_bytes_sent < 2 ^ 61
    → o.last_bytes_sent_time ≤ w.time_ns
    → w.time_ns < 2 ^ 64
    → measured_bitrate w o ≡ (
        if ltb (w.time_ns - o.last_bytes_sent_time) 10_000_000
        then zero_rate
        else fraction
            (progress w.total_bytes o.last_bytes_sent * 8)
            (w.time_ns - o.last_bytes_sent_time))
unfolding measured_bitrate
measured_bitrate-progress w o y h k t u =
    let time = sub64-small w.time_ns o.last_bytes_sent_time t u in
    let bytes = sub64-small w.total_bytes o.last_bytes_sent in
    let all = sub64-small w.total_bytes 0 in ground arith
