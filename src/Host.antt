-- ===== src/Host.antt =====
-- What the store takes from libraries outside the repository: the end of `jiff`'s time line, the
-- BLAKE3 digest and the text that `serde_json` prints.
use nomiso.Prelude.{ℕ, ◌+◌, ◌*◌, leb, if◌then◌else◌}
use nomiso.Prelude.Text.{Text}
use nomiso.Json.{Json}

pub record Host : Type 0 where
  pub max_timestamp : ℕ
  pub blake3_hex : Text → Text
  pub json_text : Json → Text

-- crates/nomiso-store/src/surreal_store.rs, `now_plus_ms`. Instants are nanoseconds since 1970.
-- A sum past the end of the time line is no timestamp, and the current instant stands in.
unfoldable pub now_plus_ms : Host → ℕ → ℕ → ℕ
now_plus_ms h now ms = let t = now + ms * 1_000_000 in if leb t h.max_timestamp then t else now
