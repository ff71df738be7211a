-- ===== src/Quota/Level.antt =====
-- The leveling quota over the levels of an account.
use dyson_fs.Base.{arith, suc, zero, ℕ, ◌*◌, ◌/◌, ◌≤◌}
use dyson_fs.Quota.{scale, Profile, LevelingConfig, positive_or, level_of, leveling_quota}

pub record IsOrdered (cfg : LevelingConfig) : Type 0 where
  pub first : positive_or 512 cfg.level1 ≤ positive_or 1024 cfg.level10
  pub second : positive_or 1024 cfg.level10 ≤ positive_or (5 * 1024) cfg.level60
  pub third : positive_or (5 * 1024) cfg.level60 ≤ positive_or (10 * 1024) cfg.level120

times_mono : (a b c : ℕ) → a ≤ b → a * c ≤ b * c
times_mono a b zero h = omega arith
times_mono a b (suc c) h = omega (arith, times_mono a b c h)

progress_mono : (a b c : ℕ) → a ≤ b → a * c / 100 ≤ b * c / 100
progress_mono a b c h = omega (arith, times_mono a b c h)

scale_mono :
    (a b l1 l10 l60 l120 : ℕ)
    → a ≤ b
    → l1 ≤ l10
    → l10 ≤ l60
    → l60 ≤ l120
    → scale a l1 l10 l60 l120 ≤ scale b l1 l10 l60 l120
unfolding scale
scale_mono a b l1 l10 l60 l120 h first second third =
    ground (arith, progress_mono a b l120 h, progress_mono a 100 l120, progress_mono 100 b l120)

-- With milestones that are ordered once the defaults are in place, a higher level never has a
-- smaller leveling quota; a missing or negative level counts as 0.
pub leveling_quota_mono :
    (cfg : LevelingConfig) (account other : Profile)
    → IsOrdered cfg
    → level_of account.level ≤ level_of other.level
    → leveling_quota cfg account ≤ leveling_quota cfg other
unfolding leveling_quota
leveling_quota_mono cfg account other ordered h =
    scale_mono (level_of account.level) (level_of other.level) _ _ _ _ h ordered.first
      ordered.second ordered.third

scale_bounds :
    (a l1 l10 l60 l120 : ℕ)
    → l1 ≤ l10
    → l10 ≤ l60
    → l60 ≤ l120
    → (l1 ≤ scale a l1 l10 l60 l120) × (scale a l1 l10 l60 l120 ≤ l120)
unfolding scale
scale_bounds a l1 l10 l60 l120 first second third = ground (arith, progress_mono a 100 l120)

-- With ordered milestones the leveling quota lies between the first and the last milestone, for
-- every level.
pub leveling_quota-bounds :
    (cfg : LevelingConfig) (account : Profile)
    → IsOrdered cfg
    → (positive_or 512 cfg.level1 ≤ leveling_quota cfg account)
      × (leveling_quota cfg account ≤ positive_or (10 * 1024) cfg.level120)
unfolding leveling_quota
leveling_quota-bounds cfg account ordered =
    scale_bounds (level_of account.level) _ _ _ _ ordered.first ordered.second ordered.third
