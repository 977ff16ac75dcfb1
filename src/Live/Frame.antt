-- ===== src/Live/Frame.antt =====
-- src/radar-renderer/cpuModel.ts: the fields of a `RadarSweepCpuModel` that the live history reads, with the
-- assertions of src/live/liveHistory.ts on one frame. `F` is the type of a double and `same` is `===` on it.
use mistr.Prelude.{
  leb, ◌==◌, if◌then◌else◌, ◌>>◌, require, is_safe_integer, Result, ok, ℕ, String, Bool, true,
  false, ◌&&◌, List, str_eq,
}
use mistr.Sites.{RadarSiteOption, is_supported_radar_site}

pub data SourceKind : Type 0 where
  nexrad_level2_archive_ii mistr_phase2_synthetic nexrad_level2_chunks nexrad_level3_n0s :
      SourceKind

pub data Product : Type 0 where
  reflectivity base_velocity storm_relative_velocity : Product

pub data Units : Type 0 where
  dbz metres_per_second knots : Units

pub record RadarSweepCpuModel (F : Type 0) : Type 0 where
  pub generation : ℕ
  pub observation_id : String
  pub site_icao : String
  pub product : Product
  pub units : Units
  pub source_kind : SourceKind
  pub observed_at_unix_ms : ℕ
  pub scale : F
  pub offset : F
  pub center_longitude : F
  pub center_latitude : F

-- A constructor for each `throw` of liveHistory.ts.
pub data HistoryError : Type 0 where
  bad_limit bad_size bad_generation not_level2_reflectivity mixed_generations : HistoryError
  not_chronological other_render_key not_newer at_capacity not_older : HistoryError

abbrev pub is_chunks : SourceKind → Bool
is_chunks nexrad_level2_chunks = true
is_chunks _ = false

abbrev pub is_reflectivity : Product → Bool
is_reflectivity reflectivity = true
is_reflectivity _ = false

abbrev pub is_dbz : Units → Bool
is_dbz dbz = true
is_dbz _ = false

abbrev pub same_source_kind : SourceKind → SourceKind → Bool
same_source_kind nexrad_level2_archive_ii nexrad_level2_archive_ii = true
same_source_kind mistr_phase2_synthetic mistr_phase2_synthetic = true
same_source_kind nexrad_level2_chunks nexrad_level2_chunks = true
same_source_kind nexrad_level3_n0s nexrad_level3_n0s = true
same_source_kind _ _ = false

abbrev pub same_product : Product → Product → Bool
same_product reflectivity reflectivity = true
same_product base_velocity base_velocity = true
same_product storm_relative_velocity storm_relative_velocity = true
same_product _ _ = false

-- `Number(model.generation)` of a bigint that is not safe is a double that is not safe either.
unfoldable pub assert_renderer_generation : ℕ → Result HistoryError (Unit {0})
assert_renderer_generation g = require (is_safe_integer g && leb 1 g) bad_generation

module _ {F : Type 0} where
  unfoldable pub with_renderer_generation : RadarSweepCpuModel F → ℕ → RadarSweepCpuModel F
  with_renderer_generation model g =
      if model.generation == g then model else record model { generation = g }

  unfoldable pub is_live_reflectivity : List RadarSiteOption → RadarSweepCpuModel F → Bool
  is_live_reflectivity sites model =
      is_chunks model.source_kind
      && is_reflectivity model.product
      && is_dbz model.units
      && is_supported_radar_site sites model.site_icao

  unfoldable pub assert_live_reflectivity :
      List RadarSiteOption → RadarSweepCpuModel F → Result HistoryError (Unit {0})
  assert_live_reflectivity sites model =
      require (is_live_reflectivity sites model) not_level2_reflectivity

  unfoldable pub generation_number : RadarSweepCpuModel F → Result HistoryError ℕ
  unfolding assert_renderer_generation
  generation_number model = do assert_renderer_generation model.generation; ok model.generation

module _ {F : Type 0} (same : F → F → Bool) where
  unfoldable pub same_render_key : RadarSweepCpuModel F → RadarSweepCpuModel F → Bool
  same_render_key current incoming =
      str_eq incoming.site_icao current.site_icao
      && same_product incoming.product current.product
      && same_source_kind incoming.source_kind current.source_kind
      && same incoming.scale current.scale
      && same incoming.offset current.offset
      && same incoming.center_longitude current.center_longitude
      && same incoming.center_latitude current.center_latitude

  unfoldable pub assert_same_render_key :
      RadarSweepCpuModel F → RadarSweepCpuModel F → Result HistoryError (Unit {0})
  assert_same_render_key current incoming =
      require (same_render_key current incoming) other_render_key
