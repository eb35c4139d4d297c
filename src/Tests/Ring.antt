-- ===== src/Tests/Ring.antt =====
-- A device whose ringer has fifteen steps.
use Prim.Native.Nat.{◌/◌}
use sctx.Context.Runtime.Ring.{
  AudioManager, Documented, set_ring_volume, get_ring_volume, is_accepted, read_back, normal,
  get_ring_volume-set_ring_volume,
}
use sctx.Prelude.{ℕ, ◌*◌, pos, negsuc, ◌≡◌, refl, some}

-- Its mode and its volume.
abbrev device : AudioManager (ℕ × ℕ)
device = record {
  mode = λ d. d.0;
  set_mode = λ m d. (m, d.1);
  volume = λ d. d.1;
  set_volume = λ v d. (d.0, v);
  most = λ d. 15;
  level = λ v most. v * most / 100;
}

device-Documented : Documented device
device-Documented = record {
  mode_set = λ m d. refl;
  volume_set = λ v d ringing some_v le. refl;
  mode_kept = λ v d ringing some_v le. ringing;
  most_mode = λ m d. refl;
  most_volume = λ v d. refl;
}

-- Half of the volume reads as 0.
get_ring_volume-set_ring_volume_example :
    get_ring_volume device (set_ring_volume device (pos 50) (normal, 3)) ≡ some (pos 0)
unfolding is_accepted read_back
get_ring_volume-set_ring_volume_example =
    get_ring_volume-set_ring_volume device device-Documented (pos 50) (normal, 3) refl

loudest : get_ring_volume device (set_ring_volume device (pos 100) (normal, 3)) ≡ some (pos 1)
unfolding set_ring_volume get_ring_volume
loudest = refl

silenced : get_ring_volume device (set_ring_volume device (negsuc 1) (normal, 3)) ≡ some (negsuc 1)
unfolding set_ring_volume get_ring_volume
silenced = refl

-- A volume of 0 is not set.
not_set : set_ring_volume device (pos 0) (normal, 3) ≡ (normal, 3)
unfolding set_ring_volume
not_set = refl
