-- ===== src/Vita/Device/Reach.antt =====
-- What holds of a device whatever is called on it.
use graphx_docker.Base.{
  ℕ, ◌^◌, ◌<◌, ◌≡◌, refl, ap, subst, Bool, true, false, not, ◌||◌, List, [], ◌∷◌, Bytes, Result, ok,
  err, if◌then◌else◌, ℤ, arith, >>=-elim, guard-elim, ok-injective, Result-cases, inl, inr, ltb,
  ◌==◌,
}
use graphx_docker.Vita.Device.{
  Doubles, DeviceError, Status, Settings, Device, default_settings, new_device, validate,
  begin_epoch, skip_samples, configure, setup_stream, close_stream, activate_stream,
  deactivate_stream, set_frequency, set_sample_rate, set_bandwidth, set_gain, range, channel, check,
  two_pi, front_or_zero, is_stream, radio_stream,
}
use graphx_docker.Vita.Device.Stream.{read_stream, read_samples, read_active}

-- A call of a method that changes the device, with its arguments.
pub data Operation (D : Type 0) : Type 0 where
  begins_epoch : Operation D
  skips : ℕ → Operation D
  configures : Settings D → Operation D
  sets_up : Bool → Bytes → List ℕ → Bool → Operation D
  closes : Bool → Operation D
  activates : Bool → ℤ → ℤ → ℕ → Operation D
  deactivates : Bool → ℤ → ℤ → Operation D
  reads : Bool → Bool → ℕ → Operation D
  sets_frequency : Bool → ℕ → D → Bool → Operation D
  sets_sample_rate : Bool → ℕ → D → Operation D
  sets_bandwidth : Bool → ℕ → D → Operation D
  sets_gain : Bool → ℕ → D → Operation D

abbrev device_of :
    {D : Type 0} → Result DeviceError (Status × Device D) → Result DeviceError (Device D)
device_of (err e) = err e
device_of (ok (status, s)) = ok s

-- The device after a call that throws is as it was.
abbrev left_by : {D : Type 0} → Result DeviceError (Device D) → Device D → Device D
left_by (err e) s = s
left_by (ok s') s = s'

module _ {D : Type 0} (d : Doubles D) where
  unfoldable pub operate : Operation D → Device D → Result DeviceError (Device D)
  unfolding begin_epoch skip_samples configure setup_stream close_stream activate_stream
      deactivate_stream read_stream set_frequency set_sample_rate set_bandwidth set_gain
  operate begins_epoch s = ok (begin_epoch d s)
  operate (skips count) s = ok (skip_samples d count s)
  operate (configures settings) s = configure d settings s
  operate (sets_up receives format channels plain) s =
      setup_stream d receives format channels plain s
  operate (closes own) s = close_stream d own s
  operate (activates own flags time count) s = device_of (activate_stream d own flags time count s)
  operate (deactivates own flags time) s = device_of (deactivate_stream d own flags time s)
  operate (reads own buffered count) s = device_of (read_stream d own buffered count s)
  operate (sets_frequency receives index value plain) s =
      set_frequency d receives index value plain s
  operate (sets_sample_rate receives index value) s = set_sample_rate d receives index value s
  operate (sets_bandwidth receives index value) s = set_bandwidth d receives index value s
  operate (sets_gain receives index value) s = set_gain d receives index value s

  unfoldable pub operate_all : List (Operation D) → Device D → Device D
  unfolding operate
  operate_all [] s = s
  operate_all (first ∷ rest) s = operate_all rest (left_by (operate first s) s)

  -- The settings are valid, an active stream is open, and the sample number is a `std::uint64_t`.
  pub record IsSound (s : Device D) : Type 0 where
    pub valid : validate d s.settings ≡ ok tt
    pub open_ : s.active ≡ true → s.opened ≡ true
    pub counted : s.sample < 2 ^ 64

  configure-IsSound :
      (settings : Settings D) (s : Device D) {s' : Device D}
      → IsSound s
      → configure d settings s ≡ ok s'
      → IsSound s'
  unfolding configure
  configure-IsSound settings s h e = >>=-elim (validate d settings) _ e λ u v r.
      subst IsSound (ok-injective r) (record { valid = v; open_ = h.open_; counted = h.counted })

  device_of-elim :
      {C : Type 0} (r : Result DeviceError (Status × Device D)) {s' : Device D}
      → device_of r ≡ ok s'
      → ((status : Status) → r ≡ ok (status, s') → C)
      → C
  device_of-elim (err x) e k = cc
  device_of-elim (ok (status, s)) e k = k status (ap (λ v. ok (status, v)) (ok-injective e))

  -- A call that ends in one of two ways.
  either-IsSound :
      (b : Bool) (x y : Result DeviceError (Status × Device D)) {r : Status × Device D}
      → (if b then x else y) ≡ ok r
      → (x ≡ ok r → IsSound r.1)
      → (y ≡ ok r → IsSound r.1)
      → IsSound r.1
  either-IsSound true x y e p q = p e
  either-IsSound false x y e p q = q e

  same-IsSound :
      {status : Status} {s : Device D} {r : Status × Device D}
      → IsSound s
      → ◌≡◌ {A = Result DeviceError (Status × Device D)} (ok (status, s)) (ok r)
      → IsSound r.1
  same-IsSound h e = subst (λ v. IsSound v.1) (ok-injective e) h

  open_after_check :
      (own : Bool) (s : Device D) {u : Unit {0}} → check d own s ≡ ok u → s.opened ≡ true
  unfolding check
  open_after_check own s e = ground (arith, e)

  read_samples-IsSound : (count : ℕ) (s : Device D) → IsSound s → IsSound (read_samples d count s).1
  read_samples-IsSound count s h = record {
    valid = h.valid;
    open_ = h.open_;
    counted = omega arith;
  }

  operate-IsSound :
      (call : Operation D) (s : Device D) {s' : Device D}
      → IsSound s
      → operate call s ≡ ok s'
      → IsSound s'
  unfolding operate
  operate-IsSound begins_epoch s h e =
      subst IsSound (ok-injective e)
        (record { valid = h.valid; open_ = h.open_; counted = omega arith })
  operate-IsSound (skips count) s h e =
      subst IsSound (ok-injective e)
        (record { valid = h.valid; open_ = h.open_; counted = omega arith })
  operate-IsSound (configures settings) s h e = configure-IsSound settings s h e
  operate-IsSound (sets_up receives format channels plain) s h e =
      >>=-elim (channel d receives (front_or_zero channels)) _ e λ u v r.
        guard-elim (is_stream d format channels plain s) radio_stream _ r λ p q.
          subst IsSound (ok-injective q)
            (record { valid = h.valid; open_ = λ z. refl; counted = h.counted })
  operate-IsSound (closes own) s h e = >>=-elim (check d own s) _ e λ u v r.
      subst IsSound (ok-injective r)
        (record { valid = h.valid; open_ = λ z. cc; counted = h.counted })
  operate-IsSound (activates own flags time count) s h e =
      device_of-elim (activate_stream d own flags time count s) e λ status a.
        >>=-elim (check d own s) _ a λ u v r. either-IsSound _ _ _ r (same-IsSound h) (
          same-IsSound (record {
            valid = h.valid;
            open_ = λ z. open_after_check own s v;
            counted = h.counted;
          }))
  operate-IsSound (deactivates own flags time) s h e =
      device_of-elim (deactivate_stream d own flags time s) e λ status a.
        >>=-elim (check d own s) _ a λ u v r. either-IsSound _ _ _ r (same-IsSound h) (
          same-IsSound {s = record s { active = false }}
            (record { valid = h.valid; open_ = λ z. cc; counted = h.counted }))
  operate-IsSound (reads own buffered count) s h e =
      device_of-elim (read_stream d own buffered count s) e λ status a.
        >>=-elim (check d own s) _ a λ u v r.
          either-IsSound (not s.active) _ (read_active d buffered count s) r (same-IsSound h) λ r'.
            either-IsSound (not buffered || count == 0 || ltb 1024 count) _ _ r' (same-IsSound h)
              (same-IsSound (read_samples-IsSound count s h))
  operate-IsSound (sets_frequency receives index value plain) s h e =
      >>=-elim (channel d receives index) _ e
        λ u v r. guard-elim plain _ _ r λ p q. configure-IsSound _ s h q
  operate-IsSound (sets_sample_rate receives index value) s h e =
      >>=-elim (channel d receives index) _ e λ u v r. configure-IsSound _ s h r
  operate-IsSound (sets_bandwidth receives index value) s h e =
      >>=-elim (channel d receives index) _ e λ u v r. configure-IsSound _ s h r
  operate-IsSound (sets_gain receives index value) s h e =
      >>=-elim (channel d receives index) _ e λ u v r. configure-IsSound _ s h r

  operate_all-IsSound :
      (calls : List (Operation D)) (s : Device D) → IsSound s → IsSound (operate_all calls s)
  unfolding operate_all
  operate_all-IsSound [] s h = h
  operate_all-IsSound (first ∷ rest) s h = elim (Result-cases (operate first s)) [
    | inl (s', e) ↦ rw e (operate_all-IsSound rest s' (operate-IsSound first s h e))
    | inr (x, e) ↦ rw e (operate_all-IsSound rest s h)
  ]

  -- A device that has been constructed, where the default settings are valid, and any calls, those
  -- that throw among them: the settings are valid, no stream is active that is not open, and the
  -- sample number stays within 64 bits.
  pub new_device-IsSound :
      (signal amplitude phase : D) {s : Device D}
      → validate d (default_settings d) ≡ ok tt
      → new_device d signal amplitude phase ≡ ok s
      → (calls : List (Operation D)) → IsSound (operate_all calls s)
  unfolding new_device
  new_device-IsSound signal amplitude phase {s} valid e calls = operate_all-IsSound calls s (
      >>=-elim (range d signal (d.of_ℕ 1000000) (d.of_ℕ 6000000000)) _ e λ u v r.
        >>=-elim (range d amplitude (d.of_ℕ 0) (d.of_ℕ 1)) _ r λ u' v' r'.
          >>=-elim (range d phase (d.of_ℕ 0) (two_pi d)) _ r' λ w x y.
            subst IsSound (ok-injective y)
              (record { valid = valid; open_ = λ z. cc; counted = omega arith }))
