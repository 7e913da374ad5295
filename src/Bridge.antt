-- ===== src/Bridge.antt =====
-- mqtt_bridge/bridge.py: the requests of mqtt clients, carried out on Matter devices.
mod State
mod Exec
mod Writes
mod Requests
mod Reading
mod Dispatch
mod Topics
mod Callbacks
pub mod Thread
pub mod Provision
pub mod Responses
pub mod Answering
pub mod WriteOrder
pub mod WriteGroups
pub mod WriteLoop
pub mod Planning
pub mod Setting
pub mod Getting
pub mod Reporting
pub mod TopicParts
pub mod Routing
pub mod Resolving
pub mod Nan
pub mod Lookups
pub mod Retained
pub mod Announcing
pub mod Story
pub mod Lifecycle
pub mod Scheduling
pub mod Commissioning
pub mod Datasets
pub use State.*
pub use Exec.*
pub use Writes.*
pub use Requests.*
pub use Reading.*
pub use Dispatch.*
pub use Topics.*
pub use Callbacks.*
unfoldable pub use Writes.{
  order_writes, at, is_state, add_to_group, group_from, has_name, arrange, arrange_all,
}
unfoldable pub use Requests.{
  prop_of, is_text, resolve, check_write, collect, plan, send_all, set_with, set_checked, set,
  transition_of, flag_of,
}
unfoldable pub use Reading.{
  state_from, state_topic, publish_state, extend_new, gather, refresh_all, requested, get,
}
unfoldable pub use Dispatch.{perform, guarded, with_payload, with_device, device_request}
unfoldable pub use Topics.{
  init, rest_of, is_bridge_request, is_device_request, is_only, subject_of, is_task, payload_of,
  task_of, task_for, on_message,
}
unfoldable pub use Callbacks.{
  put, table_from, subscribe_from, drop_one, publish_all, rebuild, on_matter_connect,
  on_matter_disconnect, result_of, schedule_state, publish_found, flush_state, publish_action,
  react, on_node_event,
}
