-- ===== src/Device/Unlink.antt =====
-- What `device_unregister` does.
use cyb_os.Prelude.{ℕ, suc, ◌≡◌, true, false, arith, ◌==◌}
use cyb_os.Prelude.Run.{ok}
use cyb_os.Device.{Devices, unlink_from, device_unregister}

-- `device_unregister`, of any device, returns 1 and leaves the list as it is: the search begins at the
-- device itself, with no device before it to unlink.
pub device_unregister_lem :
    {S : Type 0} (fuel dev : ℕ) (s : Devices S)
    → (dev == 0) ≡ false
    → device_unregister (suc fuel) dev s ≡ ok true s
unfolding device_unregister unlink_from
device_unregister_lem fuel dev s h = ground arith
