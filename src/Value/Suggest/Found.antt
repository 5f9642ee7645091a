-- ===== src/Value/Suggest/Found.antt =====
-- What `suggestPaths` offers can be read.
use mqtt_dashboard.Prelude.Text.{Text}
use mqtt_dashboard.Json
use mqtt_dashboard.Json.{Json, Items, get_item}
use mqtt_dashboard.Json.Runtime.{Runtime}
