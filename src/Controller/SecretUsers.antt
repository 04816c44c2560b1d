-- ===== src/Controller/SecretUsers.antt =====
-- Which connections a changed secret reconciles:
-- internal/controller/proxmox/proxmoxconnection_controller.go.
use kubemox.Base.{Bool, In, List, Text, true, ◌||◌, ◌≡◌}
use kubemox.Controller.Connection.{refers_to}
use kubemox.World.Env.{Connection}

abbrev uses_secret : Text → Text → Connection → Bool
uses_secret namespace name c =
    refers_to namespace name c.password_from || refers_to namespace name c.secret_from

-- A connection of the list with a name, which uses the secret.
abbrev pub User : Text → Text → List Connection → Text → Type 0
User namespace name conns x =
    (c : Connection) × In c conns × (x ≡ c.metadata.name) × (uses_secret namespace name c ≡ true)
