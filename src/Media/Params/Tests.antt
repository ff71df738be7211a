-- ===== src/Media/Params/Tests.antt =====
-- Queries and presets at concrete inputs.
use dyson_fs.Base.{
  [], any_row, codes, err, ok, parse_int, read_digits, refl, row_at, scan_digits, some,
  text_discrete, to_lower, trim_space, ℕ_discrete, ◌∷◌, ◌≡◌,
}
use dyson_fs.Media.Params.{
  MediaConfig, inside, center, jpeg, Params, PresetConfig, not_allowed, Query, explicit, raw_number,
  raw_text, read_size, read_quality, fit_of, gravity_of, canonical_format, format_name,
  format_allowed, read_name, read_format, no_preset, find_preset, parse_params,
}
use dyson_fs.Media.Params.Limits.{IsWithin, parse_params-IsWithin}

program : Unit {0}
unfolding explicit raw_number raw_text read_size read_quality fit_of gravity_of canonical_format
    format_name format_allowed read_name read_format find_preset parse_params row_at parse_int
    read_digits scan_digits to_lower trim_space any_row text_discrete ℕ_discrete
program = tt

abbrev thumb : PresetConfig
thumb = record no_preset { preset_width = 64; preset_fit = codes "Inside" }

abbrev limits : MediaConfig
limits = record {
  max_width = 4096;
  max_height = 4096;
  quality_min = 1;
  quality_max = 100;
  default_quality = 80;
  allowed_formats = codes "WEBP" ∷ codes "jpeg" ∷ [];
  presets = (codes "thumb", thumb) ∷ [];
}

abbrev query : Query
query =
    (codes "preset", codes "thumb" ∷ [])
    ∷ (codes "width", codes "128" ∷ [])
    ∷ (codes "format", codes "jpg" ∷ [])
    ∷ []

abbrev small : Params
small = record {
  preset = codes "thumb";
  width = 128;
  height = 0;
  fit = inside;
  gravity = center;
  format = some jpeg;
  quality = 80;
}

-- The query wins over the preset.
small_parsed : parse_params limits query ≡ ok small
unfolding program
small_parsed = refl

png_refused : parse_params limits ((codes "format", codes "png" ∷ []) ∷ []) ≡ err not_allowed
unfolding program
png_refused = refl

parse_params-IsWithin_example : IsWithin limits small
unfolding program
parse_params-IsWithin_example = parse_params-IsWithin limits query small refl
