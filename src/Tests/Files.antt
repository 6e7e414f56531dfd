-- ===== src/Tests/Files.antt =====
-- The theorem about `.ngt` files, at one input.
use not_gt.Base.{ℕ, ◌%◌, ◌^◌, ◌<◌, ◌≡◌, refl, codes, Option, none, some, [], ◌∷◌, arith}
use not_gt.Json.{Value, str, arr, nil, field, end}
use not_gt.Ngt.Project.{fine, NgtProject, variables_value, all_unique}
use not_gt.Ngt.{Bytes, Codec, NgtMediaSource, encode_ngt, read_ngt, chunk, media_chunks}
use not_gt.Ngt.Opened.{entries}
use not_gt.Ngt.Saved.{IsSavable, media_position, read_ngt-encode_ngt}

abbrev show : NgtProject
show = record {
  info = none;
  titles = arr nil;
  outs = arr nil;
  variables = field (codes "name") (str (codes "A")) end;
  selection = (codes "speakers", 1) ∷ [];
}

abbrev clip : NgtMediaSource
clip = record { name = codes "clip"; content = 1 ∷ 2 ∷ 3 ∷ [] }

-- A codec that knows this show.
abbrev deflated : Value → Bytes
deflated (arr vs) = 1 ∷ []
deflated v = 2 ∷ 2 ∷ []

abbrev inflated : Bytes → Option Value
inflated [] = none
inflated (b ∷ []) = some (arr nil)
inflated (b ∷ c ∷ bs) = some (variables_value show)

abbrev checksum : Bytes → ℕ → ℕ
checksum [] q = q % 4294967296
checksum (b ∷ bs) q = 7

abbrev codec : Codec
codec = record {
  deflate = deflated;
  inflate = inflated;
  utf8 = λ s. s;
  of_utf8 = λ b. b;
  crc = checksum;
  sha256 = λ b. b;
}

checksum_small : (b : Bytes) (q : ℕ) → checksum b q < 256 ^ 4
checksum_small [] q = omega arith
checksum_small (b ∷ bs) q = omega arith

show-IsSavable : IsSavable codec show (clip ∷ [])
unfolding encode_ngt media_chunks chunk all_unique
show-IsSavable = record {
  small = checksum_small;
  nothing = λ q h. omega (arith, h);
  info_kept = λ v e. absurd (ground (arith, e));
  titles_kept = record { way_back = refl; bounded = omega arith };
  outs_kept = record { way_back = refl; bounded = omega arith };
  variables_kept = record { way_back = refl; bounded = omega arith };
  titles_fit = refl;
  outs_fit = refl;
  named = (record { name_back = refl; name_bounded = omega arith }, tt);
  safe = omega arith;
}

read_ngt-encode_ngt_example :
    read_ngt codec (encode_ngt codec show (clip ∷ []))
    ≡ fine (show, entries codec (media_position codec show) (clip ∷ []))
read_ngt-encode_ngt_example = read_ngt-encode_ngt codec show (clip ∷ []) show-IsSavable
