-- ===== src/Notification.antt =====
-- The notifications of an OpenStack cluster that make the program reserve synchronizations: the
-- package cluster-manager/client/openstack/notification. Here are the event types of event_type.go
-- and the cases of the two switches of notification.go, whose labels are the same.
pub mod Payload
pub mod Keys
pub mod Calls
pub mod Cases
pub mod Handler
pub mod Returns
pub mod Reserved
mod Tests
use cdm_center.Prelude.{String, Bool, true, false}

-- the constants of event_type.go; any other string
pub data EventType : Type 0 where
  project_created project_updated project_deleted : EventType
  project_role_assignment_created project_role_assignment_deleted : EventType
  instance_created instance_updated instance_deleted : EventType
  volume_created volume_updated volume_reset_status volume_managed volume_unmanaged volume_resized
        volume_retyped volume_deleted :
      EventType
  volume_attached volume_detached : EventType
  volume_snapshot_created volume_snapshot_updated volume_snapshot_reset_status
        volume_snapshot_deleted :
      EventType
  volume_type_created volume_type_updated volume_type_deleted : EventType
  volume_type_project_access_add : EventType
  volume_type_extra_specs_created volume_type_extra_specs_deleted : EventType
  network_created network_updated network_deleted : EventType
  subnet_created subnet_updated subnet_deleted : EventType
  security_group_created security_group_updated security_group_deleted : EventType
  security_group_rule_created security_group_rule_updated security_group_rule_deleted : EventType
  router_created router_updated router_deleted : EventType
  router_interface_created router_interface_deleted : EventType
  floating_ip_created floating_ip_updated floating_ip_deleted : EventType
  port_updated port_deleted : EventType
  keypair_created keypair_imported keypair_deleted : EventType
  aggregate_created aggregate_prop_updated aggregate_metadata_updated : EventType
  aggregate_host_added aggregate_host_removed : EventType
  aggregate_deleted : EventType
  other : String → EventType

-- the string of a constant
abbrev pub event_code : EventType → String
event_code project_created = "identity.project.created"
event_code project_updated = "identity.project.updated"
event_code project_deleted = "identity.project.deleted"
event_code project_role_assignment_created = "identity.role_assignment.created"
event_code project_role_assignment_deleted = "identity.role_assignment.deleted"
event_code instance_created = "compute.instance.create.end"
event_code instance_updated = "compute.instance.update"
event_code instance_deleted = "compute.instance.delete.end"
event_code keypair_created = "keypair.create.end"
event_code keypair_deleted = "keypair.delete.end"
event_code keypair_imported = "keypair.import.end"
event_code aggregate_created = "aggregate.create.end"
event_code aggregate_deleted = "aggregate.delete.end"
event_code aggregate_prop_updated = "aggregate.updateprop.end"
event_code aggregate_metadata_updated = "aggregate.updatemetadata.end"
event_code aggregate_host_added = "aggregate.addhost.end"
event_code aggregate_host_removed = "aggregate.removehost.end"
event_code network_created = "network.create.end"
event_code network_updated = "network.update.end"
event_code network_deleted = "network.delete.end"
event_code subnet_created = "subnet.create.end"
event_code subnet_updated = "subnet.update.end"
event_code subnet_deleted = "subnet.delete.end"
event_code security_group_created = "security_group.create.end"
event_code security_group_updated = "security_group.update.end"
event_code security_group_deleted = "security_group.delete.end"
event_code security_group_rule_created = "security_group_rule.create.end"
event_code security_group_rule_updated = "security_group_rule.update.end"
event_code security_group_rule_deleted = "security_group_rule.delete.end"
event_code router_created = "router.create.end"
event_code router_updated = "router.update.end"
event_code router_deleted = "router.delete.end"
event_code router_interface_created = "router.interface.create"
event_code router_interface_deleted = "router.interface.delete"
event_code floating_ip_created = "floatingip.create.end"
event_code floating_ip_updated = "floatingip.update.end"
event_code floating_ip_deleted = "floatingip.delete.end"
event_code port_updated = "port.update.end"
event_code port_deleted = "port.delete.end"
event_code volume_created = "volume.create.end"
event_code volume_updated = "volume.update.end"
event_code volume_deleted = "volume.delete.end"
event_code volume_attached = "volume.attach.end"
event_code volume_detached = "volume.detach.end"
event_code volume_managed = "volume.manage.end"
event_code volume_unmanaged = "volume.unmanage.end"
event_code volume_resized = "volume.resize.end"
event_code volume_reset_status = "volume.reset_status.end"
event_code volume_retyped = "volume.retype"
event_code volume_snapshot_created = "snapshot.create.end"
event_code volume_snapshot_updated = "snapshot.update.end"
event_code volume_snapshot_deleted = "snapshot.delete.end"
event_code volume_snapshot_reset_status = "snapshot.reset_status.end"
event_code volume_type_created = "volume_type.create"
event_code volume_type_updated = "volume_type.update"
event_code volume_type_deleted = "volume_type.delete"
event_code volume_type_project_access_add = "volume_type_project.access.add"
event_code volume_type_extra_specs_created = "volume_type_extra_specs.create"
event_code volume_type_extra_specs_deleted = "volume_type_extra_specs.delete"
event_code (other s) = s

-- the `case` of the switch on the event type; `unhandled` is all that reserves nothing
pub data Subject : Type 0 where
  project role_assignment instance_ volume volume_attachment volume_snapshot : Subject
  volume_type volume_type_project_access volume_type_extra_specs network subnet security_group :
      Subject
  security_group_rule router router_interface floating_ip port keypair : Subject
  aggregate aggregate_host aggregate_deletion : Subject
  unhandled : Subject

abbrev pub subject : EventType → Subject
subject EventType.project_created = Subject.project
subject EventType.project_updated = Subject.project
subject EventType.project_deleted = Subject.project
subject EventType.project_role_assignment_created = Subject.role_assignment
subject EventType.project_role_assignment_deleted = Subject.role_assignment
subject EventType.instance_created = Subject.instance_
subject EventType.instance_updated = Subject.instance_
subject EventType.instance_deleted = Subject.instance_
subject EventType.volume_created = Subject.volume
subject EventType.volume_updated = Subject.volume
subject EventType.volume_reset_status = Subject.volume
subject EventType.volume_managed = Subject.volume
subject EventType.volume_unmanaged = Subject.volume
subject EventType.volume_resized = Subject.volume
subject EventType.volume_retyped = Subject.volume
subject EventType.volume_deleted = Subject.volume
subject EventType.volume_attached = Subject.volume_attachment
subject EventType.volume_detached = Subject.volume_attachment
subject EventType.volume_snapshot_created = Subject.volume_snapshot
subject EventType.volume_snapshot_updated = Subject.volume_snapshot
subject EventType.volume_snapshot_reset_status = Subject.volume_snapshot
subject EventType.volume_snapshot_deleted = Subject.volume_snapshot
subject EventType.volume_type_created = Subject.volume_type
subject EventType.volume_type_updated = Subject.volume_type
subject EventType.volume_type_deleted = Subject.volume_type
subject EventType.volume_type_project_access_add = Subject.volume_type_project_access
subject EventType.volume_type_extra_specs_created = Subject.volume_type_extra_specs
subject EventType.volume_type_extra_specs_deleted = Subject.volume_type_extra_specs
subject EventType.network_created = Subject.network
subject EventType.network_updated = Subject.network
subject EventType.network_deleted = Subject.network
subject EventType.subnet_created = Subject.subnet
subject EventType.subnet_updated = Subject.subnet
subject EventType.subnet_deleted = Subject.subnet
subject EventType.security_group_created = Subject.security_group
subject EventType.security_group_updated = Subject.security_group
subject EventType.security_group_deleted = Subject.security_group
subject EventType.security_group_rule_created = Subject.security_group_rule
subject EventType.security_group_rule_updated = Subject.security_group_rule
subject EventType.security_group_rule_deleted = Subject.security_group_rule
subject EventType.router_created = Subject.router
subject EventType.router_updated = Subject.router
subject EventType.router_deleted = Subject.router
subject EventType.router_interface_created = Subject.router_interface
subject EventType.router_interface_deleted = Subject.router_interface
subject EventType.floating_ip_created = Subject.floating_ip
subject EventType.floating_ip_updated = Subject.floating_ip
subject EventType.floating_ip_deleted = Subject.floating_ip
subject EventType.port_updated = Subject.port
subject EventType.port_deleted = Subject.port
subject EventType.keypair_created = Subject.keypair
subject EventType.keypair_imported = Subject.keypair
subject EventType.keypair_deleted = Subject.keypair
subject EventType.aggregate_created = Subject.aggregate
subject EventType.aggregate_prop_updated = Subject.aggregate
subject EventType.aggregate_metadata_updated = Subject.aggregate
subject EventType.aggregate_host_added = Subject.aggregate_host
subject EventType.aggregate_host_removed = Subject.aggregate_host
subject EventType.aggregate_deleted = Subject.aggregate_deletion
subject (EventType.other s) = Subject.unhandled

-- the tests `m.EventType == ...Deleted` (`volumeDetached` for an attachment)
abbrev pub is_deletion : EventType → Bool
is_deletion EventType.instance_deleted = true
is_deletion EventType.volume_deleted = true
is_deletion EventType.volume_detached = true
is_deletion EventType.volume_snapshot_deleted = true
is_deletion EventType.network_deleted = true
is_deletion EventType.subnet_deleted = true
is_deletion EventType.security_group_deleted = true
is_deletion EventType.security_group_rule_deleted = true
is_deletion EventType.router_deleted = true
is_deletion EventType.router_interface_deleted = true
is_deletion EventType.floating_ip_deleted = true
is_deletion EventType.port_deleted = true
is_deletion _ = false
