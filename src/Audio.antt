-- ===== src/Audio.antt =====
-- src/sources/audio-capture.cpp and src/outputs/audio-source.cpp: the buffer between the audio of a
-- source and the audio output that plays it (classes SourceAudioCapture and OutputAudioSource).
-- Samples are of any type: `mix` stands for the addition of two floats, clipped at 1 and -1.
pub mod Buffered
pub mod Mixed
pub mod Played
use src_link.Prelude.{
  true, false, length, ◌*◌, zero, some, none, sub64, ◌==◌, ◌-◌, ◌+◌, ◌||◌, [], ◌∷◌, get_elem?, not,
  suc, ◌++◌, ltb, Option, List, if◌then◌else◌, ℕ, Bool,
}
use src_link.Prelude.Slices.{take, drop}

-- A chunk of the buffer, by its AudioBufferHeader. A channel that has no data has no plane.
pub record Chunk (S : Type 0) : Type 0 where
  pub frames : ℕ
  pub offset : ℕ
  pub planes : List (Option (List S))

-- The members that change. `buffer` is the deque, oldest chunk first.
pub record Capture (S : Type 0) : Type 0 where
  pub active : Bool
  pub buffer : List (Chunk S)
  pub buffer_frames : ℕ

-- Every channel of a chunk has data, so that the chunk is as long as `dataSize` says.
abbrev pub no_gap {ℓ} : {S : Type ℓ} → List (Option S) → Bool
no_gap [] = true
no_gap (none ∷ planes) = false
no_gap (some plane ∷ planes) = no_gap planes

-- What `audioData[track].data[channel]` holds.
abbrev pub Mixes : Type 0 → Type 0
Mixes S = ℕ → ℕ → List S

-- MAX_AUDIO_BUFFER_FRAMES, and AUDIO_OUTPUT_FRAMES of OBS.
abbrev pub max_audio_buffer_frames : ℕ
max_audio_buffer_frames = 131071

abbrev pub audio_output_frames : ℕ
audio_output_frames = 1024

-- The bytes that a push adds to the deque, and those that a pop of the whole chunk removes
-- (`dataSize`). `header` is the size of an AudioBufferHeader, a sample has four bytes.
module _ {S : Type 0} where
  abbrev pub plane_bytes : ℕ → List (Option (List S)) → ℕ
  plane_bytes frames [] = 0
  plane_bytes frames (none ∷ planes) = plane_bytes frames planes
  plane_bytes frames (some plane ∷ planes) = frames * 4 + plane_bytes frames planes

  unfoldable pub pushed_bytes : ℕ → ℕ → List (Option (List S)) → ℕ
  pushed_bytes header frames planes = header + plane_bytes frames planes

  unfoldable pub data_size : ℕ → ℕ → List (Option (List S)) → ℕ
  data_size header frames planes = header + length planes * frames * 4

-- `frames` of one turn.
abbrev pub turn_frames : ℕ → ℕ → ℕ
turn_frames wanted left = if ltb wanted left then wanted else left

module _ {S : Type 0} where
  abbrev pub make_room : ℕ → Capture S → Capture S
  make_room frames c =
      if ltb max_audio_buffer_frames (c.buffer_frames + frames)
      then record c { buffer = []; buffer_frames = 0 }
      else c

  -- A buffer that would be too full is emptied first.
  unfoldable pub push_audio : ℕ → List (Option (List S)) → Capture S → Capture S
  push_audio frames planes c =
      let c' = make_room frames c in
      let pushed = record c' {
        buffer = c'.buffer ++ record { frames = frames; offset = 0; planes = planes } ∷ [];
        buffer_frames = c'.buffer_frames + frames;
      } in
      if c.active then pushed else c

  unfoldable pub on_source_audio : Bool → ℕ → List (Option (List S)) → Capture S → Capture S
  unfolding push_audio
  on_source_audio muted frames planes c = if muted then c else push_audio frames planes c

  module _ (mix : S → S → S) where
    -- Add the samples to a plane from an index on.
    unfoldable pub mix_into : ℕ → List S → List S → List S
    mix_into at ins [] = []
    mix_into (suc at) ins (o ∷ out) = o ∷ mix_into at ins out
    mix_into zero [] (o ∷ out) = o ∷ out
    mix_into zero (i ∷ ins) (o ∷ out) = mix o i ∷ mix_into zero ins out

    abbrev pub mix_plane : ℕ → ℕ → ℕ → Option (Option (List S)) → List S → List S
    mix_plane at offset n (some (some plane)) out = mix_into at (take n (drop offset plane)) out
    mix_plane at offset n _ out = out

    -- `n` frames of a chunk, into the tracks that `mixers` selects.
    unfoldable pub mix_chunk : (ℕ → Bool) → ℕ → ℕ → Chunk S → Mixes S → Mixes S
    unfolding mix_into
    mix_chunk mixers at n c out track channel =
        if mixers track
        then mix_plane at c.offset n (get_elem? c.planes channel) (out track channel)
        else out track channel

    -- The loop: the buffer, its frames and the mixes that it leaves. It stops when enough frames are
    -- played or none are left. The pop of a chunk that lacks a channel removes more bytes than the chunk
    -- has, and what follows is read out of place: `astray` stands for what the loop does from there on.
    unfoldable pub pop_chunks :
        (ℕ → List (Chunk S) → ℕ → Mixes S → List (Chunk S) × ℕ × Mixes S)
        → (ℕ → Bool)
        → ℕ
        → List (Chunk S)
        → ℕ
        → Mixes S
        → List (Chunk S) × ℕ × Mixes S
    unfolding mix_chunk
    pop_chunks astray mixers wanted [] held out = ([], held, out)
    pop_chunks astray mixers wanted (c ∷ cs) held out =
        let left = c.frames - c.offset in
        let n = turn_frames wanted left in
        let out' = mix_chunk mixers (audio_output_frames - wanted) n c out in
        let rest = pop_chunks astray mixers (wanted - n) cs (sub64 held n) out' in
        let next = if no_gap c.planes then rest else astray (wanted - n) cs (sub64 held n) out' in
        if (wanted == 0) || (held == 0)
        then (c ∷ cs, held, out)
        else if n == left
        then next
        else (record c { offset = c.offset + n } ∷ cs, sub64 held n, out')

    -- Fewer frames than an output frame: wait for more.
    unfoldable pub pop_audio :
        (ℕ → List (Chunk S) → ℕ → Mixes S → List (Chunk S) × ℕ × Mixes S)
        → (ℕ → Bool)
        → Mixes S
        → Capture S
        → Capture S × Mixes S
    unfolding pop_chunks
    pop_audio astray mixers out c =
        let (buffer, held, out') =
          pop_chunks astray mixers audio_output_frames c.buffer c.buffer_frames out in
        if not c.active || ltb c.buffer_frames audio_output_frames
        then (c, out)
        else (record c { buffer = buffer; buffer_frames = held }, out')
