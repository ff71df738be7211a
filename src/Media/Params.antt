-- ===== src/Media/Params.antt =====
-- internal/media/params.go: the parameters of a transform, from the query of a request.
pub mod Limits
mod Tests
use dyson_fs.Base.{
  Bool, List, Option, Result, Text, [], any_row, codes, err, if◌then◌else◌, ltb, negsuc, none, ok,
  parse_int, pos, row_at, some, to_lower, trim_space, ℕ, ℤ, ◌==◌, ◌||◌, ◌∷◌, ◌>>=◌, nat_eq,
  text_equality,
}

pub data Fit : Type 0 where
  cover : Fit
  contain : Fit
  fill : Fit
  inside : Fit
  outside : Fit

pub data Gravity : Type 0 where
  center : Gravity
  top : Gravity
  bottom : Gravity
  left : Gravity
  right : Gravity
  entropy : Gravity

pub data Format : Type 0 where
  jpeg : Format
  png : Format
  webp : Format
  avif : Format

-- A width or height of 0 and a format that is `none` are not set.
pub record Params : Type 0 where
  pub preset : Text
  pub width : ℕ
  pub height : ℕ
  pub fit : Fit
  pub gravity : Gravity
  pub format : Option Format
  pub quality : ℕ

pub record PresetConfig : Type 0 where
  pub preset_width : ℕ
  pub preset_height : ℕ
  pub preset_fit : Text
  pub preset_gravity : Text
  pub preset_format : Text
  pub preset_quality : ℕ

pub record MediaConfig : Type 0 where
  pub max_width : ℕ
  pub max_height : ℕ
  pub quality_min : ℕ
  pub quality_max : ℕ
  pub default_quality : ℕ
  pub allowed_formats : List Text
  pub presets : List (Text × PresetConfig)

pub data ParamError : Type 0 where
  unknown_preset : Text → ParamError
  not_positive : Text → ParamError
  over_limit : Text → ParamError
  not_an_integer : ParamError
  quality_out_of_range : ParamError
  unsupported : Text → ParamError
  not_allowed : ParamError

abbrev pub Query : Type 0
Query = List (Text × List Text)

-- The first value of a key, if it is there and not empty.
unfoldable pub explicit : Query → Text → Option Text
explicit query key = elim (row_at key query) [
  | none ↦ none
  | some values ↦ elim values [ [] ↦ none | v ∷ _ ↦ if v == [] then none else some v ]
]

-- A value of the query wins over one of the preset, whose numbers are written out and read again.
unfoldable pub raw_number : Query → Text → ℕ → Option (Option ℤ)
raw_number query key preset = elim (explicit query key) [
  | some v ↦ some (parse_int v)
  | none ↦ if preset == 0 then none else some (some (pos preset))
]

unfoldable pub raw_text : Query → Text → Text → Option Text
raw_text query key preset = elim (explicit query key) [
  | some v ↦ some v
  | none ↦ if preset == [] then none else some preset
]

unfoldable pub read_size : Text → ℕ → Option (Option ℤ) → Result ParamError ℕ
read_size name limit none = ok 0
read_size name limit (some none) = err (not_positive name)
read_size name limit (some (some (negsuc n))) = err (not_positive name)
read_size name limit (some (some (pos n))) =
    if n == 0 then err (not_positive name) else if ltb limit n then err (over_limit name) else ok n

unfoldable pub read_quality : MediaConfig → Option (Option ℤ) → Result ParamError ℕ
read_quality cfg none = ok 0
read_quality cfg (some none) = err not_an_integer
read_quality cfg (some (some (negsuc n))) = err quality_out_of_range
read_quality cfg (some (some (pos n))) =
    if ltb n cfg.quality_min || ltb cfg.quality_max n then err quality_out_of_range else ok n

unfoldable pub fit_of : Text → Option Fit
fit_of v =
    let name = to_lower v in
    if name == codes "cover"
    then some cover
    else if name == codes "contain"
    then some contain
    else if name == codes "fill"
    then some fill
    else if name == codes "inside"
    then some inside
    else if name == codes "outside"
    then some outside
    else none

unfoldable pub gravity_of : Text → Option Gravity
gravity_of v =
    let name = to_lower v in
    if name == codes "center"
    then some center
    else if name == codes "top"
    then some top
    else if name == codes "bottom"
    then some bottom
    else if name == codes "left"
    then some left
    else if name == codes "right"
    then some right
    else if name == codes "entropy"
    then some entropy
    else none

unfoldable pub canonical_format : Text → Option Format
canonical_format v =
    let name = to_lower (trim_space v) in
    if (name == codes "jpeg") || (name == codes "jpg")
    then some jpeg
    else if name == codes "png"
    then some png
    else if name == codes "webp"
    then some webp
    else if name == codes "avif"
    then some avif
    else none

unfoldable pub format_name : Format → Text
format_name jpeg = codes "jpeg"
format_name png = codes "png"
format_name webp = codes "webp"
format_name avif = codes "avif"

unfoldable pub format_allowed : Format → List Text → Bool
format_allowed f = any_row (λ a. to_lower (trim_space a) == to_lower (format_name f))

-- A name that is looked up, or the default where there is none.
unfoldable pub read_name {ℓ} :
    {A : Type ℓ} → (Text → Option A) → A → Option Text → Result ParamError A
read_name lookup default none = ok default
read_name lookup default (some v) = elim (lookup v) [ none ↦ err (unsupported v) | some a ↦ ok a ]

unfoldable pub read_format : MediaConfig → Option Text → Result ParamError (Option Format)
read_format cfg none = ok none
read_format cfg (some v) = elim (canonical_format v) [
  | none ↦ err (unsupported v)
  | some f ↦ if format_allowed f cfg.allowed_formats then ok (some f) else err not_allowed
]

abbrev pub no_preset : PresetConfig
no_preset = record {
  preset_width = 0;
  preset_height = 0;
  preset_fit = [];
  preset_gravity = [];
  preset_format = [];
  preset_quality = 0;
}

unfoldable pub find_preset : MediaConfig → Query → Result ParamError (Text × PresetConfig)
find_preset cfg query = elim (explicit query (codes "preset")) [
  | none ↦ ok ([], no_preset)
  | some name ↦ elim (row_at name cfg.presets) [
    | none ↦ err (unknown_preset name)
    | some p ↦ ok (name, p)
  ]
]

unfoldable pub parse_params : MediaConfig → Query → Result ParamError Params
parse_params cfg query = do
  chosen ← find_preset cfg query
  width ←
      read_size (codes "width") cfg.max_width
        (raw_number query (codes "width") chosen.1.preset_width)
  height ←
      read_size (codes "height") cfg.max_height
        (raw_number query (codes "height") chosen.1.preset_height)
  quality ← read_quality cfg (raw_number query (codes "quality") chosen.1.preset_quality)
  fit ← read_name fit_of cover (raw_text query (codes "fit") chosen.1.preset_fit)
  gravity ← read_name gravity_of center (raw_text query (codes "gravity") chosen.1.preset_gravity)
  format ← read_format cfg (raw_text query (codes "format") chosen.1.preset_format)
  ok (record {
    preset = chosen.0;
    width = width;
    height = height;
    fit = fit;
    gravity = gravity;
    format = format;
    quality = if quality == 0 then cfg.default_quality else quality;
  })
