-- ===== src/Audio/Mixed.antt =====
-- The additions of OutputAudioSource::popAudio (src/outputs/audio-source.cpp), one plane at a time.
use src_link.Audio.Buffered.{plane_of, plane_at}
use src_link.Prelude.Slices.{drop, take}
use src_link.Prelude.{
  Bool, sym, zero, true, none, refl, some, ap, arith, suc, ◌+◌, ◌≡◌, length, ◌∷◌, [], ◌++◌, Option,
  ℕ, List,
}
use src_link.Audio.{mix_chunk, Mixes, mix_plane, mix_into, Chunk}

module _ {S : Type 0} (mix : S → S → S) where
  pub mix_into-nil : (at : ℕ) (out : List S) → mix_into mix at [] out ≡ out
  unfolding mix_into
  mix_into-nil at [] = refl
  mix_into-nil (suc at) (o ∷ out) = ap (λ l. o ∷ l) (mix_into-nil at out)
  mix_into-nil zero (o ∷ out) = refl

  pub mix_into-append :
      (at : ℕ) (xs ys out : List S)
      → mix_into mix at (xs ++ ys) out ≡ mix_into mix (at + length xs) ys (mix_into mix at xs out)
  unfolding mix_into
  mix_into-append at xs ys [] = refl
  mix_into-append (suc at) xs ys (o ∷ out) =
      let e : suc at + length xs ≡ suc (at + length xs) = ground arith in
      rw e (ap (λ l. o ∷ l) (mix_into-append at xs ys out))
  mix_into-append zero [] ys (o ∷ out) = refl
  mix_into-append zero (x ∷ xs) ys (o ∷ out) =
      let e : zero + suc (length xs) ≡ suc (zero + length xs) = ground arith in
      rw e (ap (λ l. mix o x ∷ l) (mix_into-append zero xs ys out))

  nothing :
      (at offset n : ℕ) (out : List S) → out ≡ mix_into mix at (take n (drop {A = S} offset [])) out
  unfolding take drop
  nothing at offset n out = sym (mix_into-nil at out)

  mix_plane-take :
      (at offset n : ℕ) (p : Option (Option (List S))) (out : List S)
      → mix_plane mix at offset n p out ≡ mix_into mix at (take n (drop offset (plane_at p))) out
  mix_plane-take at offset n none out = nothing at offset n out
  mix_plane-take at offset n (some none) out = nothing at offset n out
  mix_plane-take at offset n (some (some p)) out = refl

  pub mix_chunk-take :
      (mixers : ℕ → Bool) (channel track at n : ℕ) (c : Chunk S) (out : Mixes S)
      → mixers track ≡ true
      → mix_chunk mix mixers at n c out track channel
        ≡ mix_into mix at (take n (drop c.offset (plane_of channel c))) (out track channel)
  unfolding mix_chunk
  mix_chunk-take mixers channel track at n c out e = rw e (mix_plane-take at c.offset n _ _)
