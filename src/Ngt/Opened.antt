-- ===== src/Ngt/Opened.antt =====
-- A show that is saved and opened again, in bundles/notGT/src/extension/ngt.ts.
use not_gt.Base.{
  ℕ, suc, ◌+◌, ◌-◌, ◌^◌, ◌<◌, ◌≡◌, refl, sym, ◌∙◌, ap, subst, codes, List, [], ◌∷◌, ◌++◌, length,
  length-append, arith, All, ◌=t◌, includes, Dict,
}
use not_gt.Json.{Value, fields, of_fields}
use not_gt.Model.{VariableSelection}
use not_gt.Ngt.Project.{fine, choices, choice_fields}
use not_gt.Ngt.{
  Bytes, Codec, little_endian, unsafe, NgtMediaSource, NgtMediaEntry, chunk, media_prefix,
  media_chunk, media_chunks, chunk_step, read_chunks,
}
use not_gt.Ngt.Bytes.{append-append}
use not_gt.Ngt.RoundTrip.{read_chunk-chunk, after, IsNamed, entry, read_media}

append_nil {ℓ} : {A : Type ℓ} (xs : List A) → xs ++ [] ≡ xs
append_nil [] = refl
append_nil (x ∷ xs) = ap (λ t. x ∷ t) (append_nil xs)

append_one {ℓ} :
    {A : Type ℓ} (xs : List A) (y : A) (ys : List A) → (xs ++ y ∷ []) ++ ys ≡ xs ++ y ∷ ys
append_one [] y ys = refl
append_one (x ∷ xs) y ys = ap (λ t. x ∷ t) (append_one xs y ys)

pub fields-of_fields : (m : Dict Value) → fields (of_fields m) ≡ m
fields-of_fields [] = refl
fields-of_fields ((k, v) ∷ m) = ap (λ t. (k, v) ∷ t) (fields-of_fields m)

pub choices-choice_fields : (m : VariableSelection) → choices (choice_fields m) ≡ m
choices-choice_fields [] = refl
choices-choice_fields ((k, n) ∷ m) = ap (λ t. (k, n) ∷ t) (choices-choice_fields m)

module _ (codec : Codec) where
  pub length-chunk :
      (a b c d : ℕ) (payload : Bytes)
      → length (chunk codec (a ∷ b ∷ c ∷ d ∷ []) payload) ≡ length payload + 16
  unfolding chunk
  length-chunk a b c d payload = ground (
    arith,
    length-append payload (little_endian 4 (codec.crc payload (codec.crc (a ∷ b ∷ c ∷ d ∷ []) 0))),
  )

  pub chunk_fits :
      (position a b c d : ℕ) (payload more : Bytes)
      → position + length (chunk codec (a ∷ b ∷ c ∷ d ∷ []) payload ++ more) < unsafe
      → position + length payload + 16 + length more < unsafe
  chunk_fits position a b c d payload more h = omega (
    arith,
    h,
    length-append (chunk codec (a ∷ b ∷ c ∷ d ∷ []) payload) more,
    length-chunk a b c d payload,
  )

  -- Where the files of a show are found when their chunks begin at the position.
  abbrev pub entries : ℕ → List NgtMediaSource → List NgtMediaEntry
  entries position [] = []
  entries position (m ∷ ms) =
      entry codec position m ∷ entries (after position (media_prefix codec m ++ m.content)) ms

  module _ (small : (b : Bytes) (p : ℕ) → codec.crc b p < 256 ^ 4)
      (nothing : (p : ℕ) → p < 256 ^ 4 → codec.crc [] p ≡ p) where
    read_done :
        (fuel rest position : ℕ) (json : Dict Value) (media : List NgtMediaEntry)
        → fuel ≡ suc rest
        → position + 12 < unsafe
        → read_chunks codec fuel position (chunk codec (codes "DONE") []) json media
          ≡ fine (json, media)
    unfolding read_chunks chunk_step includes ◌=t◌
    read_done fuel rest position json media f h =
        rw
          (
            f,
            read_chunks,
            sym (append_nil (chunk codec (codes "DONE") [])),
            read_chunk-chunk codec small position b'D' b'O' b'N' b'E' [] [] json media
                (omega (arith, h)),
          )
          (ground (arith, nothing (codec.crc (codes "DONE") 0) (small (codes "DONE") 0)))

    pub read_rest :
        (ms : List NgtMediaSource) (fuel position : ℕ) (json : Dict Value)
        (media : List NgtMediaEntry)
        → length ms < fuel
        → All (IsNamed codec) ms
        → position + length (media_chunks codec ms ++ chunk codec (codes "DONE") []) < unsafe
        → read_chunks codec fuel position
            (media_chunks codec ms ++ chunk codec (codes "DONE") [])
            json
            media
          ≡ fine (json, media ++ entries position ms)
    unfolding media_chunks
    read_rest [] fuel position json media f n h = rw (append_nil media) (
        read_done fuel (fuel - 1) position json media (omega (arith, f))
          (ground (arith, h, length-chunk b'D' b'O' b'N' b'E' [])))
    read_rest (m ∷ ms) fuel position json media f n h =
        let more = media_chunks codec ms ++ chunk codec (codes "DONE") [] in
        let payload = media_prefix codec m ++ m.content in
        let same =
          append-append (media_chunk codec m) (media_chunks codec ms)
            (chunk codec (codes "DONE") []) in
        let fits =
          chunk_fits position b'M' b'D' b'I' b'A' payload more
            (subst (λ x. position + length x < unsafe) same h) in
        rw
          (append-append (media_chunk codec m) (media_chunks codec ms)
            (chunk codec (codes "DONE") []))
          (read_media codec small fuel (fuel - 1) position m more json media (omega (arith, f)) n.0
              (omega (arith, fits))
            ∙ (read_rest ms (fuel - 1) (after position payload) json
                  (media ++ entry codec position m ∷ []) (omega (arith, f)) n.1
                  (omega (arith, fits))
                ∙ ap (λ e. fine (json, e))
                    (append_one media (entry codec position m)
                      (entries (after position payload) ms))))
