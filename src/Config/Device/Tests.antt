-- ===== src/Config/Device/Tests.antt =====
-- The settings of a device after a plist that names a key twice.
use hyprscheme.Base.{true, false, some, [], ◌∷◌, codes}
use hyprscheme.Base.Int.{pos}
use hyprscheme.Scm.{Scm, list_of}
use hyprscheme.Config.Device.{Doubles, Devices, dashed, device_add}
use hyprscheme.Config.Device.Settings.{IsWritten, device_add-IsWritten}

abbrev doubles : Doubles
doubles = record {
  reals = record { to_double = λ i. 5; of_ratio = λ i k. 5; is_whole = λ d. false };
  truncated = λ d. pos 5;
  less = λ a b. false;
  narrowed = λ d. d;
  out_of_range = λ a b. [];
}

abbrev no_devices : Devices
no_devices = record { configs = []; refreshes = []; error = [] }

abbrev enabled_twice : Scm
enabled_twice = list_of (
    Scm.symbol (codes "enabled")
    ∷ Scm.bool true
    ∷ Scm.symbol (codes "enabled")
    ∷ Scm.bool false
    ∷ [])

device_add-IsWritten_example :
    IsWritten doubles true
      (dashed (codes "my mouse"))
      enabled_twice
      no_devices
      (device_add doubles true (some (codes "my mouse")) enabled_twice no_devices)
unfolding list_of
device_add-IsWritten_example =
    device_add-IsWritten doubles true (some (codes "my mouse")) enabled_twice no_devices
