-- ===== src/Plan/Denylist/Nodes.antt =====
-- `is_control_plane_node` and its matchers, which flag the same identities on the infra surfaces.
use driftscribe.Base.{String, Bool, false, not, ◌&&◌, ◌||◌, if◌then◌else◌}
use driftscribe.Base.Text.{◌=ₛ◌, contains, ends_with_any}
use driftscribe.Base.Json.{Json, str}
use driftscribe.Plan.Denylist.Names.{control_plane_service_names, control_plane_bucket_suffixes}
use driftscribe.Plan.Denylist.Checks.{
  is_service_managed_bucket_name, is_service_managed_pubsub_name,
}

-- The matcher of `CONTROL_PLANE_NODE_MATCHERS` for an asset type, applied to a short name; an
-- asset type with no matcher matches nothing.
unfoldable pub node_matches : String → String → Bool
node_matches asset_type name =
    if asset_type =ₛ "storage.googleapis.com/Bucket"
    then ends_with_any name control_plane_bucket_suffixes
      || is_service_managed_bucket_name (str name)
    else if asset_type =ₛ "run.googleapis.com/Service"
    then contains control_plane_service_names name
    else if asset_type =ₛ "pubsub.googleapis.com/Topic"
    then is_service_managed_pubsub_name (str name)
    else if asset_type =ₛ "pubsub.googleapis.com/Subscription"
    then is_service_managed_pubsub_name (str name)
    else false

-- For an asset type that is a text; the name may be any value.
unfoldable pub is_control_plane_node : String → Json → Bool
unfolding node_matches
is_control_plane_node asset_type (str name) = not (name =ₛ "") && node_matches asset_type name
is_control_plane_node asset_type _ = false
