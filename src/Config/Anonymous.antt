-- ===== src/Config/Anonymous.antt =====
-- app/config.py with app/auth.py: where a caller without a key can be let in.
use real_guard_v.Prelude.{◌≡◌, map}
use real_guard_v.Unicode.{text_of_codes}
use real_guard_v.Auth.{Credentials}
use real_guard_v.Config.{Settings, service_keys, reviewer_keys}

-- What `resolve_identity` reads of the settings: the texts of the two classes of keys.
pub record Configured (s : Settings) (c : Credentials) : Type 0 where
  pub service : c.service_keys ≡ map text_of_codes (service_keys s)
  pub reviewer : c.reviewer_keys ≡ map text_of_codes (reviewer_keys s)
