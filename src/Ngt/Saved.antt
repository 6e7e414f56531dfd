-- ===== src/Ngt/Saved.antt =====
-- The file of a whole show of bundles/notGT/src/extension/ngt.ts, saved and opened again.
use not_gt.Base.{
  ℕ, ◌+◌, ◌-◌, ◌^◌, ◌≤◌, ◌<◌, ◌≡◌, refl, ◌∙◌, ap, codes, true, false, Option, none, some, List, [],
  ◌∷◌, ◌++◌, ltb, length, length-append, arith, All, ◌=t◌, includes, Dict, insert, lookup,
}
use not_gt.Json.{Value}
use not_gt.Ngt.Project.{
  fine, NgtProject, is_record, choice_fields, variables_value, are_titles, are_outs, project_from,
  project_of,
}
use not_gt.Ngt.{
  magic, little_endian, Bytes, Codec, unsafe, NgtMediaSource, NgtMediaEntry, chunk, json_chunk,
  info_chunk, media_prefix, media_chunk, media_chunks, encode_ngt, read_chunks, opened, read_ngt,
}
use not_gt.Ngt.RoundTrip.{IsKept, after, read_json, IsNamed}
use not_gt.Ngt.Opened.{
  fields-of_fields, choices-choice_fields, length-chunk, chunk_fits, entries, read_rest,
}

-- The notes that a file may begin with.
abbrev json_of : Option Value → Dict Value
json_of none = []
json_of (some v) = (codes "INFO", v) ∷ []

project_of-variables_value :
    (p : NgtProject) (info : Option Value)
    → (all_records : (v : Value) → info ≡ some v → is_record v ≡ true) → are_titles p.titles ≡ true
    → are_outs p.outs ≡ true
    → project_of (
        insert
          (codes "VARS")
          (variables_value p)
          (insert (codes "OUTS") p.outs (insert (codes "TITL") p.titles (json_of info))))
      ≡ fine (record p { info = info })
unfolding project_of project_from lookup insert ◌=t◌
project_of-variables_value p none r t o =
    rw (t, o, fields-of_fields (choice_fields p.selection), choices-choice_fields p.selection) refl
project_of-variables_value p (some v) r t o =
    rw
      (
        t,
        o,
        r v refl,
        fields-of_fields (choice_fields p.selection),
        choices-choice_fields p.selection,
      )
      refl

module _ (codec : Codec) where
  -- The show and its files are such that Node keeps them, and the file is not too long for its positions.
  pub record IsSavable (p : NgtProject) (media : List NgtMediaSource) : Type 0 where
    pub small : (b : Bytes) (q : ℕ) → codec.crc b q < 256 ^ 4
    pub nothing : (q : ℕ) → q < 256 ^ 4 → codec.crc [] q ≡ q
    pub info_kept : (v : Value) → p.info ≡ some v → IsKept codec v × (is_record v ≡ true)
    pub titles_kept : IsKept codec p.titles
    pub outs_kept : IsKept codec p.outs
    pub variables_kept : IsKept codec (variables_value p)
    pub titles_fit : are_titles p.titles ≡ true
    pub outs_fit : are_outs p.outs ≡ true
    pub named : All (IsNamed codec) media
    pub safe : length (encode_ngt codec p media) < unsafe

  abbrev pub first_position : Option Value → ℕ
  first_position none = 12
  first_position (some v) = after 12 (codec.deflate v)

  -- Where the chunks of the media files begin.
  abbrev pub media_position : NgtProject → ℕ
  media_position p =
      after (after (after (first_position p.info) (codec.deflate p.titles)) (codec.deflate p.outs))
        (codec.deflate (variables_value p))

  abbrev left : Option Value → ℕ → ℕ
  left none fuel = fuel
  left (some v) fuel = fuel - 1

  read_info :
      (small : (b : Bytes) (q : ℕ) → codec.crc b q < 256 ^ 4) (info : Option Value) (fuel : ℕ)
      (more : Bytes)
      → ((v : Value) → info ≡ some v → IsKept codec v × (is_record v ≡ true))
      → 0 < fuel
      → 12 + length (info_chunk codec info ++ more) < unsafe
      → (read_chunks codec fuel 12 (info_chunk codec info ++ more) [] []
          ≡ read_chunks codec (left info fuel) (first_position info) more (json_of info) [])
        × (first_position info + length more < unsafe)
  unfolding insert includes ◌=t◌
  read_info small none fuel more k f h = (refl, h)
  read_info small (some v) fuel more k f h =
      let fits = chunk_fits codec 12 b'I' b'N' b'F' b'O' (codec.deflate v) more h in
      (
        read_json codec small fuel (fuel - 1) 12 b'I' b'N' b'F' b'O' v more [] [] (omega (arith, f))
            refl (k v refl).0 (omega (arith, fits)),
        omega (arith, fits),
      )

  media_short : (ms : List NgtMediaSource) → length ms ≤ length (media_chunks codec ms)
  unfolding media_chunks
  media_short [] = omega arith
  media_short (m ∷ ms) = omega (
    arith,
    media_short ms,
    length-append (media_chunk codec m) (media_chunks codec ms),
    length-chunk codec b'M' b'D' b'I' b'A' (media_prefix codec m ++ m.content),
  )

  left_many : (info : Option Value) (fuel n : ℕ) → n + 1 < fuel → n < left info fuel
  left_many none fuel n h = omega arith
  left_many (some v) fuel n h = omega arith

  opened_fine :
      (json : Dict Value) (media : List NgtMediaEntry) (p : NgtProject)
      → project_of json ≡ fine p
      → opened codec (fine (json, media)) ≡ fine (p, media)
  opened_fine json media p h = rw (opened, h) refl

  -- A file with the header of this version.
  read_header :
      (rest : Bytes)
      → read_ngt codec (magic ++ (little_endian 4 1 ++ rest))
        ≡ opened codec
            (read_chunks codec (length (magic ++ (little_endian 4 1 ++ rest))) 12 rest [] [])
  unfolding read_ngt ◌=t◌
  read_header rest = rw long refl
    where
      long : ltb (length (magic ++ (little_endian 4 1 ++ rest))) 12 ≡ false
      long = ground arith

  module _ (p : NgtProject) (media : List NgtMediaSource) (k : IsSavable p media) where
    abbrev from_titles : Bytes
    from_titles =
        json_chunk codec (codes "TITL") p.titles
        ++ (json_chunk codec (codes "OUTS") p.outs
            ++ (json_chunk codec (codes "VARS") (variables_value p)
                ++ (media_chunks codec media ++ chunk codec (codes "DONE") [])))

    read_shows :
        (fuel position : ℕ) (json : Dict Value)
        → length media + 3 < fuel
        → position + length from_titles < unsafe
        → read_chunks codec fuel position from_titles json []
          ≡ fine (
            insert
                (codes "VARS")
                (variables_value p)
                (insert (codes "OUTS") p.outs (insert (codes "TITL") p.titles json)),
            entries codec
                (after
                  (after (after position (codec.deflate p.titles)) (codec.deflate p.outs))
                  (codec.deflate (variables_value p)))
                media,
          )
    unfolding includes ◌=t◌
    read_shows fuel position json f h =
        let last = media_chunks codec media ++ chunk codec (codes "DONE") [] in
        let third = json_chunk codec (codes "VARS") (variables_value p) ++ last in
        let second = json_chunk codec (codes "OUTS") p.outs ++ third in
        let a = chunk_fits codec position b'T' b'I' b'T' b'L' (codec.deflate p.titles) second h in
        let q = after position (codec.deflate p.titles) in
        let b =
          chunk_fits codec q b'O' b'U' b'T' b'S' (codec.deflate p.outs) third (omega (arith, a)) in
        let r = after q (codec.deflate p.outs) in
        let c =
          chunk_fits codec r b'V' b'A' b'R' b'S' (codec.deflate (variables_value p)) last
            (omega (arith, b)) in
        let t = after r (codec.deflate (variables_value p)) in
        read_json codec k.small fuel (fuel - 1) position b'T' b'I' b'T' b'L' p.titles second json []
          (omega (arith, f)) refl k.titles_kept (omega (arith, a))
        ∙ (read_json codec k.small (fuel - 1) (fuel - 2) q b'O' b'U' b'T' b'S' p.outs third _ []
              (omega (arith, f)) refl k.outs_kept (omega (arith, b))
            ∙ (read_json codec k.small (fuel - 2) (fuel - 3) r b'V' b'A' b'R' b'S'
                  (variables_value p) last _ [] (omega (arith, f)) refl k.variables_kept
                  (omega (arith, c))
                ∙ read_rest codec k.small k.nothing media (fuel - 3) t _ [] (omega (arith, f))
                    k.named (omega (arith, c))))

    abbrev tail : Bytes
    tail = info_chunk codec p.info ++ from_titles

    -- Three chunks and the media.
    tail_long : length media + 48 ≤ length from_titles
    tail_long =
        let last = media_chunks codec media ++ chunk codec (codes "DONE") [] in
        let third = json_chunk codec (codes "VARS") (variables_value p) ++ last in
        let second = json_chunk codec (codes "OUTS") p.outs ++ third in
        omega (
          arith,
          media_short media,
          length-append (media_chunks codec media) (chunk codec (codes "DONE") []),
          length-append (json_chunk codec (codes "VARS") (variables_value p)) last,
          length-append (json_chunk codec (codes "OUTS") p.outs) third,
          length-append (json_chunk codec (codes "TITL") p.titles) second,
          length-chunk codec b'V' b'A' b'R' b'S' (codec.deflate (variables_value p)),
          length-chunk codec b'O' b'U' b'T' b'S' (codec.deflate p.outs),
          length-chunk codec b'T' b'I' b'T' b'L' (codec.deflate p.titles),
        )

    read_tail :
        (fuel : ℕ)
        → length media + 4 < fuel
        → 12 + length tail < unsafe
        → opened codec (read_chunks codec fuel 12 tail [] [])
          ≡ fine (p, entries codec (media_position p) media)
    read_tail fuel f h =
        let first = read_info k.small p.info fuel from_titles k.info_kept (omega (arith, f)) h in
        let all =
          first.0
          ∙ read_shows (left p.info fuel) (first_position p.info) (json_of p.info)
              (left_many p.info fuel (length media + 3) (omega (arith, f))) first.1 in
        let shape =
          project_of-variables_value p p.info (λ v e. (k.info_kept v e).1) k.titles_fit
            k.outs_fit in
        ap (opened codec) all ∙ opened_fine _ _ p shape

  -- A show that is saved to a `.ngt` file and opened again is the show that was saved, and every media file is
  -- found where it is, with its name, its length and its hash: if the JSON and the names are such that Node
  -- keeps them, no chunk of JSON is longer than a reader takes, a checksum has four bytes and that of nothing
  -- adds nothing, the animations and the outs have the shape that a reader asks for, and the file is shorter
  -- than the least number that is no safe integer.
  pub read_ngt-encode_ngt :
      (p : NgtProject) (media : List NgtMediaSource)
      → IsSavable p media
      → read_ngt codec (encode_ngt codec p media) ≡ fine (p, entries codec (media_position p) media)
  unfolding encode_ngt
  read_ngt-encode_ngt p media k =
      read_header (tail p media k)
      ∙ read_tail p media k (length (encode_ngt codec p media))
          (omega (
            arith,
            tail_long p media k,
            length-append (info_chunk codec p.info) (from_titles p media k),
          ))
          (omega (arith, k.safe))
