-- ===== src/NodeDetail/Laws.antt =====
-- The update in place of the panel beside a fresh rendering of it.
use distributed_file_storage.Prelude.{ℕ, String, Option, ◌≡◌, ◌↔◌, ap}
use distributed_file_storage.Api.{NodeDetailResponse}
use distributed_file_storage.NodeDetail.{Telemetry, render_telemetry, update_telemetry}

-- What the update does not write: the badge of the role, the style of the status, the address, the port and
-- the peers.
abbrev pub Untouched : Telemetry → Telemetry → Type 0
Untouched t u =
    (t.role ≡ u.role)
    × (t.badge_online ≡ u.badge_online)
    × (t.url ≡ u.url)
    × (t.port ≡ u.port)
    × (t.peers ≡ u.peers)

module _ (url_port : String → Option String) where
  -- The update in place of a panel shows what a fresh rendering for the same node, response, latency and
  -- time would show exactly if the panel already shows the role, the status style, the address, the port
  -- and the peers of that rendering.
  pub update_telemetry-eq-render :
      (now : ℕ) (id : String) (detail : Option NodeDetailResponse) (latency : Option ℕ)
      (t : Telemetry)
      → (update_telemetry url_port now id detail latency t
          ≡ render_telemetry url_port now id detail latency)
        ↔ Untouched t (render_telemetry url_port now id detail latency)
  unfolding update_telemetry render_telemetry
  update_telemetry-eq-render now id detail latency t = (
    λ e. (
      ap (λ u. u.role) e,
      ap (λ u. u.badge_online) e,
      ap (λ u. u.url) e,
      ap (λ u. u.port) e,
      ap (λ u. u.peers) e,
    ),
    λ (role, badge, url, port, peers).
        let r = render_telemetry url_port now id detail latency in
        λ i. record r {
          role = role i;
          badge_online = badge i;
          url = url i;
          port = port i;
          peers = peers i;
        },
  )
