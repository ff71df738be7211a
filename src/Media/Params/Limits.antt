-- ===== src/Media/Params/Limits.antt =====
-- Accepted parameters keep to the limits of the configuration.
use dyson_fs.Base.{
  Option, Option-cases, Result, Text, ap, arith, codes, err, if◌then◌else◌, inl, inr, negsuc, none,
  ok, ok_inj, pos, refl, some, subst, true, ℕ, ℕ_discrete, ℤ, ◌==◌, ◌>>=◌, ◌∙◌, ◌≡◌, ◌≢◌, ◌≤◌, ◌⊎◌,
  nat_eq, text_equality,
}
use dyson_fs.Media.Params.{
  MediaConfig, cover, center, Format, Params, Query, read_size, read_quality, fit_of, gravity_of,
  canonical_format, format_allowed, read_name, read_format, find_preset, parse_params, ParamError,
}

-- What holds of the results of the rest of a chain holds of the results of the chain.
bind-keeps {ℓ κ μ ν} :
    {E : Type ℓ} {A : Type κ} {B : Type μ} (P : B → Type ν) (m : Result E A) (f : A → Result E B)
    → ((a : A) → m ≡ ok a → (b : B) → f a ≡ ok b → P b)
    → (b : B) → (m >>= f) ≡ ok b
    → P b
bind-keeps P (ok a) f step b h = step a refl b h
bind-keeps P (err e) f step b h = absurd (ground (arith, h))

size_limit :
    (name : Text) (limit n : ℕ) (raw : Option (Option ℤ))
    → read_size name limit raw ≡ ok n
    → n ≤ limit
unfolding read_size
size_limit name limit n none h = ground (arith, h)
size_limit name limit n (some none) h = absurd (ground (arith, h))
size_limit name limit n (some (some (negsuc m))) h = absurd (ground (arith, h))
size_limit name limit n (some (some (pos m))) h = ground (arith, h)

quality_limit :
    (cfg : MediaConfig) (n : ℕ) (raw : Option (Option ℤ))
    → read_quality cfg raw ≡ ok n
    → n ≢ 0
    → (cfg.quality_min ≤ n) × (n ≤ cfg.quality_max)
unfolding read_quality
quality_limit cfg n none h used = absurd (ground (arith, h, used))
quality_limit cfg n (some none) h used = absurd (ground (arith, h))
quality_limit cfg n (some (some (negsuc m))) h used = absurd (ground (arith, h))
quality_limit cfg n (some (some (pos m))) h used = ground (arith, h)

quality_used :
    (cfg : MediaConfig) (n : ℕ) (raw : Option (Option ℤ))
    → read_quality cfg raw ≡ ok n
    → ((if n == 0 then cfg.default_quality else n) ≡ cfg.default_quality)
      ⊎ ((cfg.quality_min ≤ (if n == 0 then cfg.default_quality else n))
          × ((if n == 0 then cfg.default_quality else n) ≤ cfg.quality_max))
quality_used cfg n raw h = elim (ℕ_discrete n 0) [
  | yes unset ↦ inl (ground (arith, unset))
  | no used ↦ inr (ground (arith, used, quality_limit cfg n raw h used))
]

format_limit :
    (cfg : MediaConfig) (raw : Option Text) (f : Format)
    → read_format cfg raw ≡ ok (some f)
    → format_allowed f cfg.allowed_formats ≡ true
unfolding read_format
format_limit cfg none f h = absurd (ground (arith, h))
format_limit cfg (some v) f h = elim (Option-cases (canonical_format v)) [
  | inl bad ↦ absurd (ground (arith, h, bad))
  | inr (g, good) ↦ ground (arith, h, good)
]

-- What the renderer may rely on.
pub record IsWithin (cfg : MediaConfig) (p : Params) : Type 0 where
  pub width_within : p.width ≤ cfg.max_width
  pub height_within : p.height ≤ cfg.max_height
  pub quality_within :
      (p.quality ≡ cfg.default_quality)
      ⊎ ((cfg.quality_min ≤ p.quality) × (p.quality ≤ cfg.quality_max))
  pub format_within : (f : Format) → p.format ≡ some f → format_allowed f cfg.allowed_formats ≡ true

-- Parameters that are accepted are within the limits of the configuration, whether they come from the
-- query or from a preset: the width and the height are at most the largest ones, the quality is the
-- default one or between the lowest and the highest one, and a format is one of those allowed.
pub parse_params-IsWithin :
    (cfg : MediaConfig) (query : Query) (p : Params)
    → parse_params cfg query ≡ ok p
    → IsWithin cfg p
unfolding parse_params
parse_params-IsWithin cfg query =
    let Good = IsWithin cfg in
    bind-keeps Good (find_preset cfg query) _ (λ chosen _.
      bind-keeps Good (read_size (codes "width") cfg.max_width _) _ (λ w width_ok.
        bind-keeps Good (read_size (codes "height") cfg.max_height _) _ (λ t height_ok.
          bind-keeps Good (read_quality cfg _) _ (λ q quality_ok.
            bind-keeps Good (read_name fit_of cover _) _ (λ fit _.
              bind-keeps Good (read_name gravity_of center _) _ (λ gravity _.
                bind-keeps Good (read_format cfg _) _ (λ f format_ok p last.
                  subst Good (ok_inj {E = ParamError} last) (record {
                    width_within = size_limit (codes "width") cfg.max_width w _ width_ok;
                    height_within = size_limit (codes "height") cfg.max_height t _ height_ok;
                    quality_within = quality_used cfg q _ quality_ok;
                    format_within = λ g is_g. format_limit cfg _ g (format_ok ∙ ap ok is_g);
                  }))))))))
