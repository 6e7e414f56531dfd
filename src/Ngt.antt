-- ===== src/Ngt.antt =====
-- The `.ngt` file of bundles/notGT/src/extension/ngt.ts: a whole show in one binary file, written and read. A
-- file is its bytes. Deflated JSON, UTF-8, CRC-32 and SHA-256 are those of Node, the parameter `Codec`; the
-- animations and the outs are JSON values. A media file does not change while it is saved.
pub mod Project
pub mod Bytes
pub mod RoundTrip
pub mod Opened
pub mod Saved
use not_gt.Base.{
  ℕ, zero, suc, ◌+◌, ◌*◌, ◌/◌, ◌%◌, ◌^◌, Text, codes, Bool, true, false, not, ◌&&◌, ◌||◌, Option,
  none, some, List, [], ◌∷◌, ◌++◌, ◌==◌, ltb, length, if◌then◌else◌, ◌=t◌, includes, Dict, insert,
}
use not_gt.Json.{Value, obj, Fields, end, field}
use not_gt.Timers.Params.{take}
use not_gt.Auth.Guard.{drop}
use not_gt.Ngt.Project.{NgtProblem, Read, fine, problem, NgtProject, project_of, variables_value}

abbrev pub Bytes : Type 0
Bytes = List ℕ

-- `deflate` is `deflateRawSync` of `JSON.stringify`, `inflate` the way back, `none` when it throws; `crc bytes
-- previous` goes on over more bytes.
pub record Codec : Type 0 where
  pub deflate : Value → Bytes
  pub inflate : Bytes → Option Value
  pub utf8 : Text → Bytes
  pub of_utf8 : Bytes → Text
  pub crc : Bytes → ℕ → ℕ
  pub sha256 : Bytes → Text

abbrev pub magic : Bytes
magic = 0x89 ∷ 0x4e ∷ 0x47 ∷ 0x54 ∷ 0x0d ∷ 0x0a ∷ 0x1a ∷ 0x0a ∷ []

abbrev pub ngt_version : ℕ
ngt_version = 1

abbrev pub max_json_bytes : ℕ
max_json_bytes = 536870912

-- The least number that is no safe integer.
abbrev pub unsafe : ℕ
unsafe = 9007199254740992

-- `k` bytes, the least first.
abbrev pub little_endian : ℕ → ℕ → Bytes
little_endian zero n = []
little_endian (suc k) n = (n % 256) ∷ little_endian k (n / 256)

abbrev pub of_little_endian : Bytes → ℕ
of_little_endian [] = 0
of_little_endian (b ∷ bs) = b + 256 * of_little_endian bs

-- A media file and its bytes.
pub record NgtMediaSource : Type 0 where
  pub name : Text
  pub content : Bytes

pub record NgtMediaEntry : Type 0 where
  pub name : Text
  pub offset : ℕ
  pub bytes : ℕ
  pub sha256 : Text

-- What the loop does next: it ends with an answer, or goes on at a position.
pub data Step : Type 0 where
  stop : Read (Dict Value × List NgtMediaEntry) → Step
  go : (position : ℕ) (rest : Bytes) (json : Dict Value) (media : List NgtMediaEntry) → Step

abbrev pub json_types : List Text
json_types = codes "INFO" ∷ codes "TITL" ∷ codes "OUTS" ∷ codes "VARS" ∷ []

module _ (codec : Codec) where
  unfoldable pub chunk : Bytes → Bytes → Bytes
  chunk type payload =
      type
      ++ (little_endian 8 (length payload)
          ++ (payload ++ little_endian 4 (codec.crc payload (codec.crc type 0))))

  abbrev pub json_chunk : Text → Value → Bytes
  json_chunk type v = chunk type (codec.deflate v)

  -- The prefix of a media chunk: the length of the name, and the name.
  abbrev pub media_prefix : NgtMediaSource → Bytes
  media_prefix source = little_endian 2 (length (codec.utf8 source.name)) ++ codec.utf8 source.name

  abbrev pub media_chunk : NgtMediaSource → Bytes
  media_chunk source = chunk (codes "MDIA") (media_prefix source ++ source.content)

  unfoldable pub media_chunks : List NgtMediaSource → Bytes
  media_chunks [] = []
  media_chunks (m ∷ ms) = media_chunk m ++ media_chunks ms

  abbrev pub info_chunk : Option Value → Bytes
  info_chunk none = []
  info_chunk (some v) = json_chunk (codes "INFO") v

  unfoldable pub encode_ngt : NgtProject → List NgtMediaSource → Bytes
  encode_ngt p media =
      magic
      ++ (little_endian 4 ngt_version
          ++ (info_chunk p.info
              ++ (json_chunk (codes "TITL") p.titles
                  ++ (json_chunk (codes "OUTS") p.outs
                      ++ (json_chunk (codes "VARS") (variables_value p)
                          ++ (media_chunks media ++ chunk (codes "DONE") []))))))

  unfoldable pub json_step :
      ℕ → Bytes → Bytes → Bool → Bytes → Dict Value → List NgtMediaEntry → Step
  json_step next type payload checked more json media =
      if ltb max_json_bytes (length payload)
      then stop (problem NgtProblem.damaged)
      else if not checked
      then stop (problem NgtProblem.damaged)
      else elim (codec.inflate payload) [
        | none ↦ stop (problem NgtProblem.damaged)
        | some v ↦ go next more (insert type v json) media
      ]

  -- `start` is the position of the payload.
  unfoldable pub media_step :
      (start next : ℕ) → Bytes → Bool → Bytes → Dict Value → List NgtMediaEntry → Step
  media_step start next payload checked more json media =
      let size = of_little_endian (take 2 payload) in
      let content = drop size (drop 2 payload) in
      if ltb (length payload) 2
      then stop (problem NgtProblem.damaged)
      else if ltb (length payload) (2 + size)
      then stop (problem NgtProblem.damaged)
      else if not checked
      then stop (problem NgtProblem.damaged)
      else go next more json (
          media
          ++ record {
            name = codec.of_utf8 (take size (drop 2 payload));
            offset = start + (2 + size);
            bytes = length content;
            sha256 = codec.sha256 content;
          }
            ∷ [])

  -- A chunk that is there as a whole. The pieces that a media file is checked in make one checksum.
  unfoldable pub chunk_step : ℕ → Bytes → Bytes → ℕ → Bytes → Dict Value → List NgtMediaEntry → Step
  chunk_step position type payload stored more json media =
      let checked = codec.crc payload (codec.crc type 0) == stored in
      let start = position + 12 in
      let next = start + length payload + 4 in
      if includes json_types type
      then json_step next type payload checked more json media
      else if type =t codes "MDIA"
      then media_step start next payload checked more json media
      else if type =t codes "DONE"
      then (if codec.crc type 0 == stored
          then stop (fine (json, media))
          else stop (problem NgtProblem.damaged))
      else go next more json media

  unfoldable pub framed : ℕ → Bytes → ℕ → Bytes → Dict Value → List NgtMediaEntry → Step
  framed position type size body json media =
      if not (ltb (position + 12 + size) unsafe) || ltb (length body) (size + 4)
      then stop (problem NgtProblem.truncated)
      else chunk_step position type (take size body) (of_little_endian (take 4 (drop size body)))
          (drop 4 (drop size body)) json media

  unfoldable pub read_chunk : ℕ → Bytes → Dict Value → List NgtMediaEntry → Step
  read_chunk position rest json media =
      if ltb (length rest) 12
      then stop (problem NgtProblem.truncated)
      else framed position (take 4 rest) (of_little_endian (take 8 (drop 4 rest))) (drop 12 rest)
          json media

  -- Every chunk takes at least sixteen bytes, so that the fuel, at first the length of the file, ends with
  -- the bytes at the latest: with none left a file ends too early.
  unfoldable pub read_chunks :
      ℕ → ℕ → Bytes → Dict Value → List NgtMediaEntry → Read (Dict Value × List NgtMediaEntry)
  read_chunks zero position rest json media = problem NgtProblem.truncated
  read_chunks (suc fuel) position rest json media = elim (read_chunk position rest json media) [
    | stop r ↦ r
    | go p more j m ↦ read_chunks fuel p more j m
  ]

  abbrev pub opened :
      Read (Dict Value × List NgtMediaEntry) → Read (NgtProject × List NgtMediaEntry)
  opened (problem e) = problem e
  opened (fine (json, media)) = elim (project_of json) [
    | problem e ↦ problem e
    | fine p ↦ fine (p, media)
  ]

  unfoldable pub read_ngt : Bytes → Read (NgtProject × List NgtMediaEntry)
  read_ngt file =
      if ltb (length file) 12
      then problem NgtProblem.not_ngt
      else if not (take 8 file =t magic)
      then problem NgtProblem.not_ngt
      else if ltb ngt_version (of_little_endian (take 4 (drop 8 file)))
      then problem NgtProblem.newer
      else opened (read_chunks (length file) 12 (drop 12 file) [] [])
