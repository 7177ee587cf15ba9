-- ===== src/Header.antt =====
-- The header of the cluster: frontend/src/components/ClusterHealthIndicator.ts and ClusterStatus.ts, and the
-- listeners of frontend/src/main.ts that fill it. Style classes are tones, and a title, which follows from the
-- values beside it, is left out.
pub mod Laws
use distributed_file_storage.Prelude.{
  ℕ, String, str_eq, Bool, true, false, not, ◌&&◌, ◌||◌, Option, none, some, or_else, or_text,
  if◌then◌else◌, codes, has_text, truthy?,
}
use distributed_file_storage.Api.{
  ClusterState, healthy, operational, no_majority, ClusterStatusResponse,
}
use distributed_file_storage.Health.{
  ConnectivityStatus, connected, degraded, disconnected, checking, HealthCheckResult,
}
use distributed_file_storage.Cluster.{ClusterStatusResult}
use distributed_file_storage.NodeDetail.{ViewState, normal, loading, empty, error}

pub data Tone : Type 0 where
  ok warn down muted : Tone

-- `ClusterState | string`
pub data Label : Type 0 where
  known : ClusterState → Label
  unknown : (text : String) → Label

pub record HealthIndicatorStyle : Type 0 where
  pub cluster_state : Label
  pub badge : Tone
  pub leader : Tone
  pub display_leader : String
  pub explanation : String

abbrev has_name : Option String → Bool
has_name none = false
has_name (some id) = has_text (codes id) && not (str_eq id "NONE")

abbrev leader_tone : Option String → Tone
leader_tone id = if has_name id then ok else muted

abbrev pub style_of : Label → Option String → HealthIndicatorStyle
style_of (known healthy) id = record {
  cluster_state = known healthy;
  badge = ok;
  leader = leader_tone id;
  display_leader = or_text id "NONE";
  explanation = "Quorum Healthy";
}
style_of (known operational) id = record {
  cluster_state = known operational;
  badge = warn;
  leader = leader_tone id;
  display_leader = or_text id "NONE";
  explanation = "Quorum Degraded (Single fault tolerance remaining)";
}
style_of (known no_majority) id = record {
  cluster_state = known no_majority;
  badge = down;
  leader = muted;
  display_leader = or_text id "NONE";
  explanation = "Consensus Paused (Quorum Lost — Not System Down)";
}
style_of (unknown text) id = record {
  cluster_state = unknown text;
  badge = down;
  leader = muted;
  display_leader = or_text id "UNAVAILABLE";
  explanation = "Coordinator Unreachable";
}

unfoldable pub resolve_health_indicator_style : Option Label → Option String → HealthIndicatorStyle
resolve_health_indicator_style state id = style_of (or_else state (known healthy)) id

-- What the indicator shows of a style.
pub record Indicator : Type 0 where
  pub label : Label
  pub badge : Tone
  pub leader_tone : Tone
  pub leader : String

unfoldable pub render_cluster_health_indicator : Option Label → Option String → Indicator
unfolding resolve_health_indicator_style
render_cluster_health_indicator state id =
    let s = resolve_health_indicator_style state id in
    record {
      label = s.cluster_state;
      badge = s.badge;
      leader_tone = s.leader;
      leader = s.display_leader;
    }

unfoldable pub update_cluster_health_indicator_dom :
    Option Label → Option String → Indicator → Indicator
unfolding resolve_health_indicator_style
update_cluster_health_indicator_dom state id i =
    let s = resolve_health_indicator_style state id in
    record i {
      label = s.cluster_state;
      badge = s.badge;
      leader_tone = s.leader;
      leader = s.display_leader;
    }

pub data Mode : Type 0 where
  whole_quorum degraded_quorum paused_quorum : Mode

pub data Connectivity : Type 0 where
  api_live : (latency_ms : ℕ) → Connectivity
  high_latency : Connectivity
  -- with the reason in its title, where there is one
  not_reached : (reason : Option String) → Connectivity

pub record Header : Type 0 where
  pub indicator : Indicator
  pub term : ℕ
  pub commit_index : ℕ
  pub quorum_tone : Tone
  pub active_nodes : ℕ
  pub total_nodes : ℕ
  pub mode : Mode
  pub connectivity : Connectivity

pub data HeaderPanel : Type 0 where
  skeleton : HeaderPanel
  bootstrapping : HeaderPanel
  failed : (message : Option String) → HeaderPanel
  shown : Header → HeaderPanel

abbrev leader_id_of : Option ClusterStatusResponse → String
leader_id_of none = "nodeA"
leader_id_of (some r) = or_else r.leader_id "NONE"

abbrev field : {A : Type 0} → (ClusterStatusResponse → A) → A → Option ClusterStatusResponse → A
field get d none = d
field get d (some r) = get r

abbrev quorum_tone_of : ClusterState → Tone
quorum_tone_of healthy = ok
quorum_tone_of operational = warn
quorum_tone_of no_majority = down

abbrev mode_of : ClusterState → Mode
mode_of healthy = whole_quorum
mode_of operational = degraded_quorum
mode_of no_majority = paused_quorum

unfoldable pub connectivity_badge : ConnectivityStatus → ℕ → Connectivity
connectivity_badge connected latency = api_live latency
connectivity_badge degraded latency = high_latency
connectivity_badge _ latency = not_reached none

abbrev pub header_of : Option ClusterStatusResponse → ConnectivityStatus → ℕ → Indicator → Header
header_of status connectivity latency indicator =
    let state = field (λ r. r.cluster_state) healthy status in
    record {
      indicator = indicator;
      term = field (λ r. r.term) 4 status;
      commit_index = field (λ r. r.commit_index) 1042 status;
      quorum_tone = quorum_tone_of state;
      active_nodes = field (λ r. r.active_nodes) 3 status;
      total_nodes = field (λ r. r.total_nodes) 3 status;
      mode = mode_of state;
      connectivity = connectivity_badge connectivity latency;
    }

abbrev label_of : Option ClusterStatusResponse → Option Label
label_of status = some (known (field (λ r. r.cluster_state) healthy status))

unfoldable pub render_cluster_status :
    Option ClusterStatusResponse → ConnectivityStatus → ℕ → ViewState → Option String → HeaderPanel
unfolding render_cluster_health_indicator connectivity_badge
render_cluster_status status connectivity latency loading message = skeleton
render_cluster_status status connectivity latency empty message = bootstrapping
render_cluster_status status connectivity latency error message = failed message
render_cluster_status status connectivity latency normal message = shown (
    header_of status connectivity latency
      (render_cluster_health_indicator (label_of status) (some (leader_id_of status))))

-- Only the normal view has the elements that the update looks for.
unfoldable pub update_cluster_status_dom :
    Option ClusterStatusResponse → ConnectivityStatus → ℕ → HeaderPanel → HeaderPanel
unfolding update_cluster_health_indicator_dom render_cluster_status
update_cluster_status_dom status connectivity latency (shown h) =
    let new = header_of status connectivity latency (
      update_cluster_health_indicator_dom (label_of status) (some (leader_id_of status))
        h.indicator) in
    shown (record h {
      indicator = new.indicator;
      term = new.term;
      commit_index = new.commit_index;
      quorum_tone = new.quorum_tone;
      active_nodes = new.active_nodes;
      total_nodes = new.total_nodes;
      mode = new.mode;
      connectivity = new.connectivity;
    })
update_cluster_status_dom status connectivity latency _ =
    render_cluster_status status connectivity latency normal none

abbrev pub is_normal : ViewState → Bool
is_normal normal = true
is_normal _ = false

-- The listener of the cluster service, as far as the header goes.
unfoldable pub on_cluster_status :
    ViewState → Bool → HealthCheckResult → ClusterStatusResult → HeaderPanel → HeaderPanel
unfolding update_cluster_status_dom
on_cluster_status view has_error health result panel =
    let connectivity = if result.reachable then health.status else disconnected in
    if not (is_normal view) || has_error
    then panel
    else update_cluster_status_dom result.response connectivity result.latency_ms panel

abbrev with_connectivity : Connectivity → HeaderPanel → HeaderPanel
with_connectivity c (shown h) = shown (record h { connectivity = c })
with_connectivity c panel = panel

-- The listener of the health service. In the other views the dashboard is drawn anew before it comes back.
unfoldable pub on_health : ViewState → Bool → HealthCheckResult → HeaderPanel → HeaderPanel
on_health view has_error health panel =
    let badge =
      if health.reachable
      then api_live health.latency_ms
      else not_reached (some (or_text health.error "Server offline")) in
    if not (is_normal view) || has_error then panel else with_connectivity badge panel
