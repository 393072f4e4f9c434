-- ===== src/Params.antt =====
-- src/params.py: the protocol's constants.
use echocoin_core.Prelude.{ℕ, ◌*◌, ◌^◌}

abbrev pub ticks_per_lapse : ℕ
ticks_per_lapse = 100_000_000

abbrev pub supply_cap : ℕ
supply_cap = 21_000_000 * ticks_per_lapse

abbrev pub emission_decay_denominator : ℕ
emission_decay_denominator = 10 ^ 40

abbrev pub emission_decay_numerator : ℕ
emission_decay_numerator = 1386294265029292275522718605160789

abbrev pub block_size_limit : ℕ
block_size_limit = 10_000_000

abbrev pub max_peers : ℕ
max_peers = 125

abbrev pub address_word_count : ℕ
address_word_count = 12

abbrev pub word_bits : ℕ
word_bits = 11

abbrev pub vdf_iterations_start : ℕ
vdf_iterations_start = 12_200_000

abbrev pub vdf_adjust_interval : ℕ
vdf_adjust_interval = 10_080

abbrev pub vdf_adjust_min_seconds : ℕ
vdf_adjust_min_seconds = 100

abbrev pub timestamp_skew_seconds : ℕ
timestamp_skew_seconds = 30

abbrev pub genesis_timestamp : ℕ
genesis_timestamp = 1787869281
