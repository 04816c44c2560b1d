-- ===== src/Controller/TemplateOutcomes.antt =====
-- What the deletion and the comparison of a VirtualMachineTemplate end with:
-- internal/controller/proxmox/virtualmachinetemplate_controller.go and
-- pkg/proxmox/virtualmachinetemplate.go.
use kubemox.Api.{CloudInitConfig, VirtualMachineTemplate}
use kubemox.Base.{Bool, ap, arith, bytes, false, refl, some, true, ℕ, ◌||◌, ◌∙◌, ◌≡◌, ◌≢◌}
use kubemox.Client.Lookup.{get_virtual_machine, guest_at}
use kubemox.Client.Power.{delete_vm}
use kubemox.Controller.TemplateDeletion.{
  delete_and_release_template, delete_virtual_machine_template,
}
use kubemox.Template.Machine.{
  check_template_ci_config, check_template_delta, get_cloud_init_config, machine_differs,
}
use kubemox.World.Call.{Call}
use kubemox.World.Ends.{bind-ok}
use kubemox.World.Env.{CompareOptions}
use kubemox.World.Error.{Error, is_kube_not_found, is_task_error, message, not_found}
use kubemox.World.Monad.{
  Action, Outcome, World, crash, err, fail, gets, handle, logged, note, ok, on_option, panic,
  return, ◌>>=◌,
}

-- The world in which `deleteVirtualMachineTemplate` asks for the deletion.
abbrev pub template_deletion_started : VirtualMachineTemplate → World → World
template_deletion_started t w =
    logged (Call.record_event (bytes "VMTemplateDeleting") t.metadata.name) true w

-- The deletion of an unprotected template whose guest is not found ends with the NotFoundError and never
-- comes to the finalizer: the world is the one in which the lookup failed.
pub missing_template_keeps_finalizer :
    (pc : ℕ) (t : VirtualMachineTemplate) (w w' : World) (e : Error)
    → t.spec.deletion_protection ≡ false
    → get_virtual_machine pc t.spec.name t.spec.node_name (template_deletion_started t w) ≡ err e w'
    → delete_and_release_template pc t w ≡ err (not_found (message e)) w'
unfolding delete_and_release_template delete_virtual_machine_template delete_vm ◌>>=◌ handle return
    fail note is_task_error is_kube_not_found
missing_template_keeps_finalizer pc t w w' e p h = ground arith

-- Two values of different types are never equal.
abbrev pub NeverEqual : World → Type 0
NeverEqual w = (o : CompareOptions) (a b : CloudInitConfig) → w.env.pointer_equal o a b ≡ false

ci_config_differs :
    (pc : ℕ) (t : VirtualMachineTemplate) (config : CloudInitConfig) (w w' : World) (b : Bool)
    → t.spec.cloud_init_config ≡ some config
    → NeverEqual w'
    → check_template_ci_config pc t w ≡ ok b w'
    → b ≡ true
unfolding check_template_ci_config get_cloud_init_config ◌>>=◌ handle return gets crash on_option
ci_config_differs pc t config w w' b c n h = grind arith

ci_config_ends :
    (pc : ℕ) (t : VirtualMachineTemplate) (e : Error) (w w' : World)
    → check_template_ci_config pc t w ≢ err e w'
unfolding check_template_ci_config get_cloud_init_config ◌>>=◌ handle return gets crash on_option
ci_config_ends pc t e w w' h = ground arith

-- The lines of the comparison behind the lookup.
abbrev compare_guest : ℕ → VirtualMachineTemplate → ℕ → Action Bool
compare_guest pc t p = do
  guest ← guest_at p
  cloud_init_diff ← handle (check_template_ci_config pc t) (λ _. return false) return
  return (machine_differs guest.vm_config t.spec.virtual_machine_config || cloud_init_diff)

or_true : (b : Bool) → (b || true) ≡ true
or_true b = ground arith

always_behind :
    (pc : ℕ) (t : VirtualMachineTemplate) (config : CloudInitConfig) (p : ℕ) (w w' : World)
    (b : Bool)
    → t.spec.cloud_init_config ≡ some config
    → NeverEqual w'
    → compare_guest pc t p w ≡ ok b w'
    → b ≡ true
unfolding ◌>>=◌ handle return gets
always_behind pc t config p w w' b c n h = go (check_template_ci_config pc t w) refl
  where
    go : (o : Outcome Bool) → check_template_ci_config pc t w ≡ o → b ≡ true
    go (ok d w1) e =
        let same_world : w1 ≡ w' = ground arith in
        let differs = ci_config_differs pc t config w w' d c n (e ∙ ap (ok d) same_world) in
        ground
          (arith, or_true (machine_differs (w.guests p).vm_config t.spec.virtual_machine_config))
    go (err x w1) e = absurd (ci_config_ends pc t x w w1 e)
    go (panic w1) e = ground arith

-- The comparison of a template with a cloud-init configuration always finds a difference, whatever the guest
-- has, where it returns: `cmp.Equal` is given a pointer and a value there, and values of different types are
-- never equal.
pub check_template_delta-always :
    (pc : ℕ) (t : VirtualMachineTemplate) (config : CloudInitConfig) (w w' : World) (b : Bool)
    → t.spec.cloud_init_config ≡ some config
    → NeverEqual w'
    → check_template_delta pc t w ≡ ok b w'
    → b ≡ true
unfolding check_template_delta gets
check_template_delta-always pc t config w w' b c n h =
    let (p, w1, e1, h1) =
      bind-ok (get_virtual_machine pc t.spec.name t.spec.node_name) (compare_guest pc t) w h in
    always_behind pc t config p w1 w' b c n h1
