-- ===== src/Vita/Device.antt =====
-- `VirtualDevice` of vita/virtual_device.hpp and vita/virtual_device.cpp: a simulated receiver
-- behind the SoapySDR interface. The arithmetic of `double` is a parameter.
pub mod Stream
pub mod Reach
use graphx_docker.Base.{
  ℕ, zero, suc, ◌+◌, ◌-◌, ◌*◌, ◌/◌, ◌%◌, ◌^◌, Bool, true, false, not, ◌&&◌, ◌||◌, List, [], ◌∷◌,
  ◌++◌, Bytes, codes, Result, ok, err, ◌>>=◌, ◌>>◌, guard, ltb, ◌==◌, if◌then◌else◌, length, ℤ, pos,
  negsuc,
}
use graphx_docker.Attributes.{bytes_equal}

-- What the code uses of `double` and <cmath>. `cycles` is the part of `skip_samples` that is
-- computed in `long double`: the fraction of offset * count / rate.
pub record Doubles (D : Type 0) : Type 0 where
  pub less : D → D → Bool
  pub same : D → D → Bool
  pub is_finite : D → Bool
  pub of_ℕ : ℕ → D
  pub negative : D → D
  pub plus : D → D → D
  pub minus : D → D → D
  pub times : D → D → D
  pub over : D → D → D
  pub floor : D → D
  pub absolute : D → D
  pub cosine : D → D
  pub sine : D → D
  pub remainder : D → D → D
  pub power : D → D → D
  pub pi : D
  pub to_uint64 : D → ℕ
  pub round : D → ℤ
  pub cycles : D → ℕ → D → D

pub data DeviceError : Type 0 where
  radio_range radio_rate radio_channel radio_stream radio_args : DeviceError

-- What `activateStream`, `deactivateStream` and `readStream` return.
pub data Status : Type 0 where
  success not_supported timed_out stream_error : Status
  -- The time stamp of the first sample, in nanoseconds, and the samples.
  samples : ℤ → List (ℤ × ℤ) → Status

pub record Settings (D : Type 0) : Type 0 where
  pub center : D
  pub rate : D
  pub bandwidth : D
  pub gain : D

pub record Device (D : Type 0) : Type 0 where
  pub settings : Settings D
  pub signal : D
  pub amplitude : D
  pub phase : D
  pub initial_phase : D
  pub clipped : ℕ
  pub sample : ℕ
  pub opened : Bool
  pub active : Bool

abbrev nonzero : ℤ → Bool
nonzero (pos zero) = false
nonzero _ = true

-- `static_cast<std::int16_t>`
abbrev pub to_int16 : ℤ → ℤ
to_int16 (pos n) = let low = n % 65536 in if ltb low 32768 then pos low else negsuc (65535 - low)
to_int16 (negsuc n) = let low = n % 65536 in if ltb low 32768 then negsuc low else pos (65535 - low)

-- `channels.empty() ? 0 : channels.front()`
abbrev pub front_or_zero : List ℕ → ℕ
front_or_zero [] = 0
front_or_zero (index ∷ channels) = index

module _ {D : Type 0} (d : Doubles D) where
  abbrev pub two_pi : D
  two_pi = d.times (d.of_ℕ 2) d.pi

  -- `range`: a comparison with a NaN is false, and so is its `isfinite`.
  unfoldable pub range : D → D → D → Result DeviceError (Unit {0})
  range value minimum maximum =
      guard (not (not (d.is_finite value) || d.less value minimum || d.less maximum value))
        radio_range

  -- The default member initializers of `Settings`.
  abbrev pub default_settings : Settings D
  default_settings = record {
    center = d.of_ℕ 100000000;
    rate = d.of_ℕ 1000000;
    bandwidth = d.of_ℕ 800000;
    gain = d.of_ℕ 0;
  }

  abbrev fresh : D → D → D → Device D
  fresh signal amplitude phase = record {
    settings = default_settings;
    signal = signal;
    amplitude = amplitude;
    phase = phase;
    initial_phase = phase;
    clipped = 0;
    sample = 0;
    opened = false;
    active = false;
  }

  -- The constructor.
  unfoldable pub new_device : D → D → D → Result DeviceError (Device D)
  unfolding range
  new_device signal amplitude phase = do
    range signal (d.of_ℕ 1000000) (d.of_ℕ 6000000000)
    range amplitude (d.of_ℕ 0) (d.of_ℕ 1)
    range phase (d.of_ℕ 0) two_pi
    ok (fresh signal amplitude phase)

  -- `validate`
  unfoldable pub validate : Settings D → Result DeviceError (Unit {0})
  unfolding range
  validate s = do
    range s.center (d.of_ℕ 1000000) (d.of_ℕ 6000000000)
    range s.rate (d.of_ℕ 1000) (d.of_ℕ 2000000)
    guard (d.same s.rate (d.floor s.rate)) radio_rate
    range s.bandwidth (d.of_ℕ 1) s.rate
    range s.gain (d.negative (d.of_ℕ 60)) (d.of_ℕ 60)

  -- `begin_epoch`
  unfoldable pub begin_epoch : Device D → Device D
  begin_epoch s = record s { sample = 0; phase = s.initial_phase }

  -- `skip_samples`
  unfoldable pub skip_samples : ℕ → Device D → Device D
  skip_samples count s =
      let fraction = d.cycles (d.minus s.signal s.settings.center) count s.settings.rate in
      record s {
        phase = d.remainder (d.plus s.phase (d.times (d.times fraction (d.of_ℕ 2)) d.pi)) two_pi;
        sample = (s.sample + count) % 2 ^ 64;
      }

  -- `configure`
  unfoldable pub configure : Settings D → Device D → Result DeviceError (Device D)
  unfolding validate
  configure settings s = do validate settings; ok (record s { settings = settings })

  -- `channel`: `receives` says whether the direction is `SOAPY_SDR_RX`.
  unfoldable pub channel : Bool → ℕ → Result DeviceError (Unit {0})
  channel receives index = guard (receives && index == 0) radio_channel

  -- `getNumChannels`
  abbrev pub channel_count : Bool → ℕ
  channel_count receives = if receives then 1 else 0

  abbrev pub is_stream : Bytes → List ℕ → Bool → Device D → Bool
  is_stream format channels plain s =
      not (
        s.opened || ltb 1 (length channels) || not (bytes_equal format (codes "CS16")) || not plain)

  -- `setupStream`: `plain` says whether there are no arguments.
  unfoldable pub setup_stream :
      Bool → Bytes → List ℕ → Bool → Device D → Result DeviceError (Device D)
  unfolding channel
  setup_stream receives format channels plain s = do
    channel receives (front_or_zero channels)
    guard (is_stream format channels plain s) radio_stream
    ok (record s { opened = true })

  -- `check`: `own` says whether the handle is the one that `setupStream` gave.
  unfoldable pub check : Bool → Device D → Result DeviceError (Unit {0})
  check own s = guard (s.opened && own) radio_stream

  -- `closeStream`
  unfoldable pub close_stream : Bool → Device D → Result DeviceError (Device D)
  unfolding check
  close_stream own s = do check own s; ok (record s { active = false; opened = false })

  -- `activateStream`
  unfoldable pub activate_stream :
      Bool → ℤ → ℤ → ℕ → Device D → Result DeviceError (Status × Device D)
  unfolding check
  activate_stream own flags time count s = do
    check own s
    if nonzero flags || nonzero time || not (count == 0)
        then ok (not_supported, s)
        else ok (success, record s { active = true })

  -- `deactivateStream`
  unfoldable pub deactivate_stream :
      Bool → ℤ → ℤ → Device D → Result DeviceError (Status × Device D)
  unfolding check
  deactivate_stream own flags time s = do
    check own s
    if nonzero flags || nonzero time
        then ok (not_supported, s)
        else ok (success, record s { active = false })

  -- The setters and getters of one setting each.
  unfoldable pub set_frequency : Bool → ℕ → D → Bool → Device D → Result DeviceError (Device D)
  unfolding channel configure
  set_frequency receives index value plain s = do
    channel receives index
    guard plain radio_args
    configure (record s.settings { center = value }) s

  unfoldable pub set_sample_rate : Bool → ℕ → D → Device D → Result DeviceError (Device D)
  unfolding channel configure
  set_sample_rate receives index value s = do
    channel receives index
    configure (record s.settings { rate = value }) s

  unfoldable pub set_bandwidth : Bool → ℕ → D → Device D → Result DeviceError (Device D)
  unfolding channel configure
  set_bandwidth receives index value s = do
    channel receives index
    configure (record s.settings { bandwidth = value }) s

  unfoldable pub set_gain : Bool → ℕ → D → Device D → Result DeviceError (Device D)
  unfolding channel configure
  set_gain receives index value s = do
    channel receives index
    configure (record s.settings { gain = value }) s
