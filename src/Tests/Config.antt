-- ===== src/Tests/Config.antt =====
-- The settings, at a concrete file.
use s_size_store.Prelude.{◌≡◌, refl, some, arith}
use s_size_store.Config.{load_config, ok}
use s_size_store.Config.Loading.{load_config-written, written, IsWritable}
use s_size_store.Tests.Sample.{sample_config}

pub sample-IsWritable : IsWritable sample_config
sample-IsWritable = record {
  port_fits = omega arith;
  threads_fit = omega arith;
  days_fit = omega arith;
  capacity_fits = omega arith;
  counter_fits = omega arith;
  has_secret = refl;
  usual_ttl = refl;
}

load_config-written_example : load_config (some (written sample_config)) ≡ ok sample_config
load_config-written_example = load_config-written sample_config sample-IsWritable
