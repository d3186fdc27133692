-- ===== src/Plane/Switch.antt =====
-- What the activation of an embedding generation leaves in the index.
use nomiso.Prelude.Text.{Text}
use nomiso.Plane.{Plane}
use nomiso.Plane.Ageing.{Table}
