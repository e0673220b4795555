-- ===== src/Proxy/Destinations.antt =====
-- src/api/v1.rs: where the loop of `proxy` sends a key.
use skyport.Prelude.{Dict, Text}
use skyport.Json.{Json}
use skyport.Security.Url.{Url}
use skyport.Proxy.Upstream.{UpstreamRequest}

abbrev made : Url → Json → Dict Text → UpstreamRequest
made url body headers = record { url = url; body = body; headers = headers }
