-- ===== src/FetchMetadata/Kinds.antt =====
-- The request kinds of src/net/fetch_metadata.rs and their header tokens.
use gosub_sonar.Prelude.{Bool, true, false, Text, codes}

pub data RequestDestination : Type 0 where
  empty audio audio_worklet document embed font frame iframe image json manifest object :
      RequestDestination
  paint_worklet report script service_worker shared_worker style track video worker xslt :
      RequestDestination

unfoldable pub is_navigation : RequestDestination → Bool
is_navigation document = true
is_navigation embed = true
is_navigation frame = true
is_navigation iframe = true
is_navigation object = true
is_navigation _ = false

unfoldable pub destination_str : RequestDestination → Text
destination_str empty = codes "empty"
destination_str audio = codes "audio"
destination_str audio_worklet = codes "audioworklet"
destination_str document = codes "document"
destination_str embed = codes "embed"
destination_str font = codes "font"
destination_str frame = codes "frame"
destination_str iframe = codes "iframe"
destination_str image = codes "image"
destination_str json = codes "json"
destination_str manifest = codes "manifest"
destination_str object = codes "object"
destination_str paint_worklet = codes "paintworklet"
destination_str report = codes "report"
destination_str script = codes "script"
destination_str service_worker = codes "serviceworker"
destination_str shared_worker = codes "sharedworker"
destination_str style = codes "style"
destination_str track = codes "track"
destination_str video = codes "video"
destination_str worker = codes "worker"
destination_str xslt = codes "xslt"

pub data RequestMode : Type 0 where
  no_cors cors same_origin navigate websocket : RequestMode

unfoldable pub mode_str : RequestMode → Text
mode_str no_cors = codes "no-cors"
mode_str cors = codes "cors"
mode_str same_origin = codes "same-origin"
mode_str navigate = codes "navigate"
mode_str websocket = codes "websocket"

-- In the order of the source's derived `Ord`.
pub data SecFetchSite : Type 0 where
  no_site cross_site same_site same_origin : SecFetchSite

unfoldable pub site_str : SecFetchSite → Text
site_str no_site = codes "none"
site_str cross_site = codes "cross-site"
site_str same_site = codes "same-site"
site_str SecFetchSite.same_origin = codes "same-origin"
