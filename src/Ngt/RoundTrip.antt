-- ===== src/Ngt/RoundTrip.antt =====
-- One chunk of a file that is read as it was written, in bundles/notGT/src/extension/ngt.ts.
use not_gt.Base.{
  ℕ, suc, ◌+◌, ◌^◌, ◌≤◌, ◌<◌, ◌≡◌, refl, codes, true, false, not, ◌||◌, some, List, [], ◌∷◌, ◌++◌,
  ◌==◌, ltb, length, length-append, arith, ◌=t◌, includes, Dict, insert,
}
use not_gt.Json.{Value}
use not_gt.Ngt.{
  json_types, Bytes, Codec, little_endian, max_json_bytes, unsafe, NgtMediaSource, NgtMediaEntry,
  chunk, json_chunk, media_prefix, media_chunk, json_step, media_step, chunk_step, framed,
  read_chunk, read_chunks,
}
use not_gt.Ngt.Bytes.{of_little_endian-little_endian, append-append, take-append, drop-append}

-- The position after a chunk.
abbrev pub after : ℕ → Bytes → ℕ
after position payload = position + 12 + length payload + 4

module _ (codec : Codec) where
  -- What Node keeps of a value, as a chunk of JSON.
  pub record IsKept (v : Value) : Type 0 where
    pub way_back : codec.inflate (codec.deflate v) ≡ some v
    pub bounded : length (codec.deflate v) ≤ max_json_bytes

  -- A media file whose name Node keeps.
  pub record IsNamed (m : NgtMediaSource) : Type 0 where
    pub name_back : codec.of_utf8 (codec.utf8 m.name) ≡ m.name
    pub name_bounded : length (codec.utf8 m.name) < 65536

  -- Where the file finds it when its chunk is at the position.
  abbrev pub entry : ℕ → NgtMediaSource → NgtMediaEntry
  entry position m = record {
    name = m.name;
    offset = position + 12 + (2 + length (codec.utf8 m.name));
    bytes = length m.content;
    sha256 = codec.sha256 m.content;
  }

module _ (codec : Codec) (small : (b : Bytes) (p : ℕ) → codec.crc b p < 256 ^ 4) where
  -- A chunk is read as what it was written from.
  framed-chunk :
      (position : ℕ) (type payload more : Bytes) (json : Dict Value) (media : List NgtMediaEntry)
      → position + 12 + length payload < unsafe
      → framed codec position type
          (length payload)
          (payload ++ (little_endian 4 (codec.crc payload (codec.crc type 0)) ++ more))
          json
          media
        ≡ chunk_step codec position type payload
            (codec.crc payload (codec.crc type 0))
            more
            json
            media
  unfolding framed
  framed-chunk position type payload more json media h =
      rw
        (
          whole,
          take-append payload rest,
          drop-append payload rest,
          of_little_endian-little_endian 4 sum (small payload (codec.crc type 0)),
        )
        refl
    where
      sum : ℕ
      sum = codec.crc payload (codec.crc type 0)

      rest : Bytes
      rest = little_endian 4 sum ++ more

      whole :
          (not (ltb (position + 12 + length payload) unsafe)
            || ltb (length (payload ++ rest)) (length payload + 4))
          ≡ false
      whole = ground (arith, length-append payload rest)

  -- Four letters, the length, the payload, and its checksum.
  pub read_chunk-chunk :
      (position a b c d : ℕ) (payload more : Bytes) (json : Dict Value) (media : List NgtMediaEntry)
      → position + 12 + length payload < unsafe
      → let type = a ∷ b ∷ c ∷ d ∷ [] in
        read_chunk codec position (chunk codec type payload ++ more) json media
        ≡ chunk_step codec position type payload
            (codec.crc payload (codec.crc type 0))
            more
            json
            media
  unfolding read_chunk chunk
  read_chunk-chunk position a b c d payload more json media h =
      rw
        (
          long,
          of_little_endian-little_endian 8 (length payload) (omega arith),
          append-append payload (little_endian 4 sum) more,
        )
        (framed-chunk position (a ∷ b ∷ c ∷ d ∷ []) payload more json media h)
    where
      sum : ℕ
      sum = codec.crc payload (codec.crc (a ∷ b ∷ c ∷ d ∷ []) 0)

      long : ltb (length (chunk codec (a ∷ b ∷ c ∷ d ∷ []) payload ++ more)) 12 ≡ false
      long = ground arith

  pub read_json :
      (fuel rest position a b c d : ℕ) (v : Value) (more : Bytes) (json : Dict Value)
      (media : List NgtMediaEntry)
      → fuel ≡ suc rest
      → includes json_types (a ∷ b ∷ c ∷ d ∷ []) ≡ true
      → IsKept codec v
      → position + 12 + length (codec.deflate v) < unsafe
      → read_chunks codec fuel position (json_chunk codec (a ∷ b ∷ c ∷ d ∷ []) v ++ more) json media
        ≡ read_chunks codec rest
            (after position (codec.deflate v))
            more
            (insert (a ∷ b ∷ c ∷ d ∷ []) v json)
            media
  unfolding read_chunks chunk_step json_step
  read_json fuel rest position a b c d v more json media f t k h =
      rw
        (
          f,
          read_chunks,
          read_chunk-chunk position a b c d (codec.deflate v) more json media h,
          t,
          fits,
          same,
          k.way_back,
        )
        refl
    where
      fits : ltb max_json_bytes (length (codec.deflate v)) ≡ false
      fits = ground (arith, k.bounded)

      same :
          (codec.crc (codec.deflate v) (codec.crc (a ∷ b ∷ c ∷ d ∷ []) 0)
            == codec.crc (codec.deflate v) (codec.crc (a ∷ b ∷ c ∷ d ∷ []) 0))
          ≡ true
      same = ground arith

  pub read_media :
      (fuel rest position : ℕ) (m : NgtMediaSource) (more : Bytes) (json : Dict Value)
      (media : List NgtMediaEntry)
      → fuel ≡ suc rest
      → IsNamed codec m
      → position + 12 + length (media_prefix codec m ++ m.content) < unsafe
      → read_chunks codec fuel position (media_chunk codec m ++ more) json media
        ≡ read_chunks codec rest
            (after position (media_prefix codec m ++ m.content))
            more
            json
            (media ++ entry codec position m ∷ [])
  unfolding read_chunks chunk_step media_step includes ◌=t◌
  read_media fuel rest position m more json media f n h =
      rw
        (
          f,
          read_chunks,
          read_chunk-chunk position b'M' b'D' b'I' b'A' (media_prefix codec m ++ m.content) more
              json media h,
          of_little_endian-little_endian 2 (length (codec.utf8 m.name))
              (omega (arith, n.name_bounded)),
          long,
          named,
          same,
          take-append (codec.utf8 m.name) m.content,
          drop-append (codec.utf8 m.name) m.content,
          n.name_back,
        )
        refl
    where
      payload : Bytes
      payload = media_prefix codec m ++ m.content

      long : ltb (length (media_prefix codec m ++ m.content)) 2 ≡ false
      long = ground arith

      named :
          ltb (length (media_prefix codec m ++ m.content)) (2 + length (codec.utf8 m.name)) ≡ false
      named = ground (arith, length-append (codec.utf8 m.name) m.content)

      same :
          (codec.crc payload (codec.crc (codes "MDIA") 0)
            == codec.crc payload (codec.crc (codes "MDIA") 0))
          ≡ true
      same = ground arith
