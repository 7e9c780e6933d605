-- ===== src/Admin/Newcomer.antt =====
-- How a new user comes to the bot of src/adminController.cpp: an administrator sends the number that
-- /start has shown of the user.
use Prim.Native.Char.{Char}
use Prim.Native.String.{◌∷◌ as cons}
use mqtt_sentry.Base.{String, nat_eq, string_eq}
