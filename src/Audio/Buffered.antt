-- ===== src/Audio/Buffered.antt =====
-- The buffer of src/sources/audio-capture.cpp: SourceAudioCapture::pushAudio, and what is left to play.
use src_link.Prelude.Slices.{drop}
use src_link.Prelude.{
  ◌*◌, ltb, branch, none, refl, some, arith, suc, ◌+◌, ◌≤◌, ◌≡◌, All, get_elem?, length, ◌∷◌, [],
  ◌-◌, ◌++◌, Option, ℕ, List,
}
use src_link.Audio.{
  pushed_bytes, plane_bytes, data_size, make_room, max_audio_buffer_frames, Capture, push_audio,
  Chunk,
}

one_more : (m f : ℕ) → suc m * f * 4 ≡ f * 4 + m * f * 4
one_more m f = omega arith

module _ {S : Type 0} where
  abbrev pub frames_left : Chunk S → ℕ
  frames_left c = c.frames - c.offset

  abbrev pub total_left : List (Chunk S) → ℕ
  total_left [] = 0
  total_left (c ∷ cs) = frames_left c + total_left cs

  abbrev pub plane_at : Option (Option (List S)) → List S
  plane_at (some (some plane)) = plane
  plane_at _ = []

  -- A channel of a chunk.
  abbrev pub plane_of : ℕ → Chunk S → List S
  plane_of channel c = plane_at (get_elem? c.planes channel)

  -- The samples of a channel that are still to be played, in order.
  abbrev pub stream : ℕ → List (Chunk S) → List S
  stream channel [] = []
  stream channel (c ∷ cs) = drop c.offset (plane_of channel c) ++ stream channel cs

  -- The channel has a sample for each frame.
  pub record Filled (channel : ℕ) (c : Chunk S) : Type 0 where
    pub long : length (plane_of channel c) ≡ c.frames
    pub within : c.offset ≤ c.frames

  -- The count of the frames is right, and the channel is filled.
  pub record Sound (channel : ℕ) (c : Capture S) : Type 0 where
    pub counted : c.buffer_frames ≡ total_left c.buffer
    pub bounded : c.buffer_frames ≤ max_audio_buffer_frames
    pub filled : All (Filled channel) c.buffer

  total_left-append :
      (xs ys : List (Chunk S)) → total_left (xs ++ ys) ≡ total_left xs + total_left ys
  total_left-append [] ys = ground arith
  total_left-append (x ∷ xs) ys = let rest = total_left-append xs ys in ground arith

  All-append :
      (channel : ℕ) (xs ys : List (Chunk S))
      → All (Filled channel) xs
      → All (Filled channel) ys
      → All (Filled channel) (xs ++ ys)
  All-append channel [] ys h k = k
  All-append channel (x ∷ xs) ys h k = (h.0, All-append channel xs ys h.1 k)

  make_room-Sound :
      (channel frames : ℕ) (c : Capture S)
      → frames ≤ max_audio_buffer_frames
      → Sound channel c
      → Sound channel (make_room frames c)
        × ((make_room frames c).buffer_frames + frames ≤ max_audio_buffer_frames)
  make_room-Sound channel frames c few h =
      branch (λ x. Sound channel x × (x.buffer_frames + frames ≤ max_audio_buffer_frames))
        (ltb max_audio_buffer_frames (c.buffer_frames + frames)) _ _
        (λ _. (record { counted = refl; bounded = ground arith; filled = tt }, ground arith))
        λ y. (h, ground arith)

  add-Sound :
      (channel frames : ℕ) (planes : List (Option (List S))) (c : Capture S)
      → c.buffer_frames + frames ≤ max_audio_buffer_frames
      → length (plane_at (get_elem? planes channel)) ≡ frames
      → Sound channel c
      → Sound channel (record c {
        buffer = c.buffer ++ record { frames = frames; offset = 0; planes = planes } ∷ [];
        buffer_frames = c.buffer_frames + frames;
      })
  add-Sound channel frames planes c few long h =
      let new : Chunk S = record { frames = frames; offset = 0; planes = planes } in
      record {
        counted = let total = total_left-append c.buffer (new ∷ []) in ground (arith, h.counted);
        bounded = few;
        filled =
            All-append channel c.buffer (new ∷ []) h.filled
              (record { long = long; within = ground arith }, tt);
      }

  -- A chunk of at most 131071 frames, with a sample for each of its frames on the channel, leaves a sound
  -- buffer sound: the count of frames is right and at most 131071.
  pub push_audio-Sound :
      (channel frames : ℕ) (planes : List (Option (List S))) (c : Capture S)
      → frames ≤ max_audio_buffer_frames
      → length (plane_at (get_elem? planes channel)) ≡ frames
      → Sound channel c
      → Sound channel (push_audio frames planes c)
  unfolding push_audio
  push_audio-Sound channel frames planes c few long h =
      let room = make_room-Sound channel frames c few h in
      branch (Sound channel) c.active _ _
        (λ _. add-Sound channel frames planes (make_room frames c) room.1 long room.0) (λ _. h)

  -- How many channels have no data.
  abbrev pub missing : List (Option (List S)) → ℕ
  missing [] = 0
  missing (none ∷ planes) = suc (missing planes)
  missing (some plane ∷ planes) = missing planes

  plane_bytes-missing :
      (frames : ℕ) (planes : List (Option (List S)))
      → plane_bytes frames planes + missing planes * frames * 4 ≡ length planes * frames * 4
  plane_bytes-missing frames [] = omega arith
  plane_bytes-missing frames (none ∷ planes) =
      let rest = plane_bytes-missing frames planes in
      omega (arith, rest, one_more (missing planes) frames, one_more (length planes) frames)
  plane_bytes-missing frames (some plane ∷ planes) =
      let rest = plane_bytes-missing frames planes in
      omega (arith, rest, one_more (length planes) frames)

  -- A pop of a whole chunk removes as many bytes as the push of the chunk added, and four more for each
  -- frame of each channel that has no data: the two agree just if every channel has data or there is no
  -- frame.
  pub data_size-missing :
      (header frames : ℕ) (planes : List (Option (List S)))
      → data_size header frames planes
        ≡ pushed_bytes header frames planes + missing planes * frames * 4
  unfolding data_size pushed_bytes
  data_size-missing header frames planes =
      let rest = plane_bytes-missing frames planes in ground (arith, rest)
