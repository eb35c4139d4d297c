-- ===== src/Context/Runtime/Ring.antt =====
-- The ring volume of the Lua library of DemoLuaRuntime: setRingVolume and getRingVolume on the
-- device's AudioManager, which is a parameter with the state of the device.
use Prim.Native.Nat.{◌/◌}
use native.Mathlib.Nat.{div-eq_of_lt, div_self}
use sctx.Prelude.{
  ℕ, zero, suc, ◌<◌, ◌≤◌, ◌==◌, ltb, leb, ℤ, pos, negsuc, ◌≡◌, refl, Bool, true, false, ◌&&◌,
  Option, none, some, if◌then◌else◌, arith, inl, inr, Bool-cases,
}

-- RINGER_MODE_SILENT, RINGER_MODE_VIBRATE and RINGER_MODE_NORMAL
abbrev pub silent : ℕ
silent = 0

abbrev pub vibrate : ℕ
vibrate = 1

abbrev pub normal : ℕ
normal = 2

-- The ringer's mode and the volume of STREAM_RING on a device; `level v most` is
-- (int)(v / 100.0 * most), which is computed in floating point.
pub record AudioManager (D : Type 0) : Type 0 where
  pub mode : D → ℕ
  pub set_mode : ℕ → D → D
  pub volume : D → ℕ
  pub set_volume : ℕ → D → D
  pub most : D → ℕ
  pub level : ℕ → ℕ → ℕ

module _ {D : Type 0} (am : AudioManager D) where
  unfoldable pub set_ring_volume : ℤ → D → D
  set_ring_volume (negsuc zero) d = am.set_mode vibrate d
  set_ring_volume (negsuc (suc zero)) d = am.set_mode silent d
  set_ring_volume (negsuc (suc (suc n))) d = d
  set_ring_volume (pos zero) d = d
  set_ring_volume (pos (suc n)) d =
      let ringing = am.set_mode normal d in
      am.set_volume (am.level (suc n) (am.most ringing)) ringing

  -- The quotient of two ints, none where Java throws an ArithmeticException.
  unfoldable pub quotient : ℕ → ℕ → Option ℤ
  quotient n zero = none
  quotient n (suc m) = some (pos (n / suc m))

  unfoldable pub get_ring_volume : D → Option ℤ
  unfolding quotient
  get_ring_volume d =
      if am.mode d == silent
      then some (negsuc 1)
      else (if am.mode d == vibrate then some (negsuc 0) else quotient (am.volume d) (am.most d))

  -- What AudioManager's documentation says of a mode and of a volume that are set, and that the
  -- greatest volume of a stream does not change.
  pub record Documented : Type 0 where
    pub mode_set : (m : ℕ) (d : D) → am.mode (am.set_mode m d) ≡ m
    pub volume_set :
        (v : ℕ) (d : D)
        → am.mode d ≡ normal
        → 0 < v
        → v ≤ am.most d
        → am.volume (am.set_volume v d) ≡ v
    pub mode_kept :
        (v : ℕ) (d : D)
        → am.mode d ≡ normal
        → 0 < v
        → v ≤ am.most d
        → am.mode (am.set_volume v d) ≡ normal
    pub most_mode : (m : ℕ) (d : D) → am.most (am.set_mode m d) ≡ am.most d
    pub most_volume : (v : ℕ) (d : D) → am.most (am.set_volume v d) ≡ am.most d

  -- The volumes that setRingVolume passes on to a device: the two modes, and the percentages whose
  -- level is above 0 and at most the greatest volume.
  unfoldable pub is_accepted : ℤ → D → Bool
  is_accepted (negsuc zero) d = true
  is_accepted (negsuc (suc zero)) d = true
  is_accepted (negsuc (suc (suc n))) d = false
  is_accepted (pos zero) d = false
  is_accepted (pos (suc n)) d =
      ltb 0 (am.level (suc n) (am.most d)) && leb (am.level (suc n) (am.most d)) (am.most d)

  -- A mode as it was set; of the percentages 1 where the level is the greatest volume, else 0.
  unfoldable pub read_back : ℤ → D → ℤ
  read_back (negsuc n) d = negsuc n
  read_back (pos n) d = if am.level n (am.most d) == am.most d then pos 1 else pos 0

  quotient-full : (v m : ℕ) → 0 < v → v ≤ m → quotient v m ≡ some (if v == m then pos 1 else pos 0)
  unfolding quotient
  quotient-full v zero some_v le = absurd (omega (arith, some_v, le))
  quotient-full v (suc m) some_v le = elim (Bool-cases (v == suc m)) [
    | inl same ↦ grind (arith, same, div_self {n = suc m})
    | inr less ↦ grind (arith, less, div-eq_of_lt {n = v} {m = suc m})
  ]

  module _ (documented : Documented) where
    get_ring_volume-volume :
        (v : ℕ) (d : D)
        → am.mode d ≡ normal
        → 0 < v
        → v ≤ am.most d
        → get_ring_volume (am.set_volume v d) ≡ some (if v == am.most d then pos 1 else pos 0)
    unfolding get_ring_volume
    get_ring_volume-volume v d ringing some_v le =
        rw
          (
            documented.mode_kept v d ringing some_v le,
            documented.volume_set v d ringing some_v le,
            documented.most_volume v d,
          )
          (quotient-full v (am.most d) some_v le)

    -- On an AudioManager that does as documented: where setRingVolume is called with -2, -1 or a
    -- percentage whose level is above 0 and at most the greatest volume, getRingVolume then gives -2
    -- and -1 back; of a percentage it gives 1 where the level is the greatest volume, and else 0.
    pub get_ring_volume-set_ring_volume :
        (v : ℤ) (d : D)
        → is_accepted v d ≡ true
        → get_ring_volume (set_ring_volume v d) ≡ some (read_back v d)
    unfolding set_ring_volume get_ring_volume is_accepted read_back
    get_ring_volume-set_ring_volume (negsuc zero) d fine = rw (documented.mode_set vibrate d) refl
    get_ring_volume-set_ring_volume (negsuc (suc zero)) d fine =
        rw (documented.mode_set silent d) refl
    get_ring_volume-set_ring_volume (negsuc (suc (suc n))) d fine = ground (arith, fine)
    get_ring_volume-set_ring_volume (pos zero) d fine = ground (arith, fine)
    get_ring_volume-set_ring_volume (pos (suc n)) d fine =
        rw
          (
            get_ring_volume-volume (am.level (suc n) (am.most (am.set_mode normal d)))
                (am.set_mode normal d) (documented.mode_set normal d)
                (ground (arith, documented.most_mode normal d, fine))
                (ground (arith, documented.most_mode normal d, fine)),
            documented.most_mode normal d,
          )
          refl
