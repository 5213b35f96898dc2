-- ===== src/Api/Conversion/Status.antt =====
-- api/v1beta2/auth_config_conversion.go: the status.
use authorino.Common.{map}
use authorino.Api.V1beta1
use authorino.Api.V1beta2

-- `convertStatusSummaryTo`, `convertStatusSummaryFrom`
unfoldable pub summary_to : V1beta2.Summary → V1beta1.Summary
summary_to s = record {
  ready = s.ready;
  hosts_ready = s.hosts_ready;
  num_hosts_ready = s.num_hosts_ready;
  num_identity_sources = s.num_identity_sources;
  num_metadata_sources = s.num_metadata_sources;
  num_authorization_policies = s.num_authorization_policies;
  num_response_items = s.num_response_items;
  festival_wristband_enabled = s.festival_wristband_enabled;
}

unfoldable pub summary_from : V1beta1.Summary → V1beta2.Summary
summary_from s = record {
  ready = s.ready;
  hosts_ready = s.hosts_ready;
  num_hosts_ready = s.num_hosts_ready;
  num_identity_sources = s.num_identity_sources;
  num_metadata_sources = s.num_metadata_sources;
  num_authorization_policies = s.num_authorization_policies;
  num_response_items = s.num_response_items;
  festival_wristband_enabled = s.festival_wristband_enabled;
}

module _ {T : Type 0} where
  unfoldable pub condition_to : V1beta2.Condition T → V1beta1.Condition T
  condition_to c = record {
    condition_type = c.condition_type;
    status = c.status;
    last_transition_time = c.last_transition_time;
    reason = c.reason;
    message = c.message;
    last_updated_time = c.last_updated_time;
  }

  unfoldable pub condition_from : V1beta1.Condition T → V1beta2.Condition T
  condition_from c = record {
    condition_type = c.condition_type;
    status = c.status;
    last_transition_time = c.last_transition_time;
    reason = c.reason;
    message = c.message;
    last_updated_time = c.last_updated_time;
  }

  -- `convertStatusTo`
  unfoldable pub status_to : V1beta2.AuthConfigStatus T → V1beta1.AuthConfigStatus T
  unfolding condition_to summary_to
  status_to s = record {
    conditions = map condition_to s.conditions;
    summary = summary_to s.summary;
  }

  -- `convertStatusFrom`
  unfoldable pub status_from : V1beta1.AuthConfigStatus T → V1beta2.AuthConfigStatus T
  unfolding condition_from summary_from
  status_from s = record {
    conditions = map condition_from s.conditions;
    summary = summary_from s.summary;
  }
