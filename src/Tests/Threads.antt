-- ===== src/Tests/Threads.antt =====
-- A concrete run of the audio thread of an ingress source (src/sources/ingress-link-source.cpp).
-- The audio thread of an ingress source: two chunks are captured, one of them muted, and one is sent.
use src_link.Audio.{Chunk}
use src_link.Prelude.{refl, ◌∷◌, some, false, [], ◌++◌, true, arith, ◌≡◌, ℕ, List}
use src_link.Ingress.AudioThread.{
  interrupted, turned, run_thread-line, heard, captured, ThreadEvent, HasRoom, run_thread, Thread,
  thread_step, line,
}

abbrev idle_thread : Thread ℕ
idle_thread = record {
  running = true;
  capture = record { active = true; buffer = []; buffer_frames = 0 };
  sent = [];
}

-- No chunk of the run lacks a channel, so nothing is misread.
abbrev keep : List (Chunk ℕ) → List (Chunk ℕ)
keep cs = cs

abbrev thread_events : List (ThreadEvent ℕ)
thread_events =
    captured false 2 (some (1 ∷ 2 ∷ []) ∷ [])
    ∷ captured true 2 (some (3 ∷ 4 ∷ []) ∷ [])
    ∷ turned true
    ∷ interrupted
    ∷ []

thread_events-HasRoom : HasRoom keep thread_events idle_thread
unfolding thread_step
thread_events-HasRoom = (ground arith, (ground arith, tt))

run_thread-line_example :
    line keep (run_thread keep thread_events idle_thread)
    ≡ line keep idle_thread ++ heard keep thread_events idle_thread
run_thread-line_example =
    run_thread-line keep thread_events idle_thread thread_events-HasRoom (refl, (refl, tt)) tt
