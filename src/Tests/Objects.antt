-- ===== src/Tests/Objects.antt =====
-- The theorems on downloads, snapshots, templates and connections, at the objects of the scenario.
use kubemox.Api.{VirtualMachineSnapshot}
use kubemox.Base.{
  All, Bool, [], bytes, cut_at, equal_fold, explode, false, fold_byte, if◌then◌else◌, is_nil,
  is_space, none, push_byte, refl, some, split, text_eq, trim, trim_left, trim_right, true, ◌≡◌,
  ◌⊎◌,
}
use kubemox.Client.Cache.{
  cached_vmid, get_cached_vm, get_node, no_entries, set_cached_vm, set_cached_vmid, set_entry,
}
use kubemox.Client.Lookup.{
  find_vm, get_virtual_machine, get_vmid, virtual_machine, virtual_machines,
}
use kubemox.Controller.Download.{handle_download_url}
use kubemox.Controller.DownloadOutcomes.{completed_last, failed_download-Completed}
use kubemox.Controller.Snapshot.{
  handle_snapshot_creation, reconcile_snapshot, snapshot_created_status, take_snapshot,
}
use kubemox.Controller.SnapshotOutcomes.{
  created_patch, handle_snapshot_creation_lem, other_connection-Avoids-proxmox,
}
use kubemox.Controller.TemplateDeletion.{delete_and_release_template}
use kubemox.Controller.TemplateOutcomes.{
  check_template_delta-always, missing_template_keeps_finalizer, template_deletion_started,
}
use kubemox.GuestName.Defs.{conn, for_vm}
use kubemox.Scenario.{calm, elder, golden, golden_config, image, nightly, no_nodes, start, value_of}
use kubemox.Snapshot.Guests.{get_vm_snapshots}
use kubemox.Storage.Contents.{storage_download_url}
use kubemox.Template.CloudInit.{cloud_init_compare_options, trimmed_servers}
use kubemox.Template.IpConfigs.{ip_config_parser, parse_pair, parse_pairs}
use kubemox.Template.Machine.{
  check_template_ci_config, check_template_delta, get_cloud_init_config, machine_differs,
}
use kubemox.World.Call.{Call, reaches_proxmox}
use kubemox.World.Error.{message, not_found, other}
use kubemox.World.Monad.{
  World, after, crash, err, gets, handle, logged, modify, on_option, perform, return, ◌>>=◌,
}
use kubemox.World.Trace.{Avoided}

-- A cluster whose client knows the node, and whose tasks fail.
abbrev failing : World
failing =
    set_entry 0 (bytes "pve")
      (record {
        node = some (bytes "pve");
        vms = some no_entries;
        vm_objs = none;
        containers = some no_entries;
        container_objs = none;
      })
      (record calm {
        env = record (calm.env) {
          task_end =
              λ _. record { status = false; completed = true; error = none; exit_status = [] };
        };
      })

failed_download-Completed_example :
    completed_last (after (handle_download_url 0 image failing)).trace ≡ true
unfolding storage_download_url handle get_node ◌>>=◌ gets on_option text_eq return perform
failed_download-Completed_example =
    failed_download-Completed 0 image failing
      (logged (Call.download_url (bytes "pve") image.spec) true failing) refl refl refl refl

-- A guest with no snapshot, in the world that has listed them.
abbrev listed : World
listed = after (get_vm_snapshots 0 (bytes "web") (bytes "pve") calm)

handle_snapshot_creation_lem_example :
    (All (λ t. bytes "nightly" ≡ t) []
      × (b : Bool) × (after (handle_snapshot_creation 0 nightly elder (bytes "nightly") calm)
          ≡ logged (created_patch nightly) b listed))
    ⊎ ((¬ All (λ t. bytes "nightly" ≡ t) [])
        × (handle_snapshot_creation 0 nightly elder (bytes "nightly") calm
            ≡ (if text_eq nightly.status snapshot_created_status
                  then return tt
                  else take_snapshot 0 nightly elder (bytes "nightly"))
                listed))
unfolding get_vm_snapshots ◌>>=◌ get_virtual_machine get_node gets on_option perform modify return
    get_vmid text_eq cached_vmid virtual_machines find_vm equal_fold set_cached_vmid get_cached_vm
    fold_byte set_cached_vm virtual_machine crash
handle_snapshot_creation_lem_example =
    handle_snapshot_creation_lem 0 nightly elder (bytes "nightly") [] calm listed refl

abbrev stray : VirtualMachineSnapshot
stray = record nightly { connection_ref = some (bytes "other") }

other_connection-Avoids-proxmox_example :
    Avoided reaches_proxmox (after (reconcile_snapshot stray calm))
unfolding text_eq conn for_vm
other_connection-Avoids-proxmox_example = other_connection-Avoids-proxmox stray calm refl refl

abbrev unreachable : World
unreachable = start no_nodes

missing_template_keeps_finalizer_example :
    delete_and_release_template 0 golden unreachable
    ≡ err
        (not_found (bytes "no route to host"))
        (logged (Call.get_node (bytes "pve")) false (template_deletion_started golden unreachable))
unfolding get_virtual_machine ◌>>=◌ get_node gets on_option perform message
missing_template_keeps_finalizer_example =
    missing_template_keeps_finalizer 0 golden unreachable
      (logged (Call.get_node (bytes "pve")) false (template_deletion_started golden unreachable))
      (other (bytes "no route to host")) refl refl

abbrev compared : World
compared = after (check_template_delta 0 golden calm)

abbrev finding : Bool
finding = value_of false (check_template_delta 0 golden calm)

check_template_delta-always_example : finding ≡ true
unfolding check_template_delta ◌>>=◌ get_virtual_machine get_node gets on_option perform modify
    return get_vmid text_eq cached_vmid virtual_machines find_vm equal_fold set_cached_vmid
    get_cached_vm fold_byte push_byte split cut_at explode is_nil is_space trim trim_left trim_right
    set_cached_vm virtual_machine cloud_init_compare_options trimmed_servers ip_config_parser
    parse_pair parse_pairs check_template_ci_config get_cloud_init_config machine_differs crash
    handle
check_template_delta-always_example =
    check_template_delta-always 0 golden golden_config calm compared finding refl (λ _ _ _. refl)
      refl
