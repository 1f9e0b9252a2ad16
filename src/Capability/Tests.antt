-- ===== src/Capability/Tests.antt =====
-- A run of attenuation.
use runix_os.Prelude.{◌≡◌, refl, true, false, none, some}
use runix_os.Capability.{Capability, RightsMask, attenuate}
use runix_os.Capability.Rights.{Attenuates, attenuate-Attenuates}
use runix_os.Samples.{console}

abbrev reader : RightsMask
reader = record { read = true; write = false; grant = true }

-- What a reader gets from the console capability.
abbrev read_console : Capability
read_console = record console { write = false; id = 0; origin = none }

derived_is : attenuate console reader ≡ some read_console
unfolding attenuate
derived_is = refl

attenuate-Attenuates_example : Attenuates console reader read_console
attenuate-Attenuates_example = attenuate-Attenuates console reader derived_is
