-- ===== src/Controller.antt =====
-- internal/controller/proxmox and internal/webhook: the reconcilers and the admission webhook.
pub mod Mode
pub mod Claims
pub mod Webhook
pub mod Actions
pub mod Deletion
pub mod Reconcile
pub mod Protection
pub mod Isolation
pub mod Outcomes
pub mod Admission
pub mod Set
pub mod Scaling
pub mod ContainerDeletion
pub mod ContainerOperations
pub mod ContainerReconcile
pub mod ContainerProtection
pub mod ContainerProgress
pub mod Download
pub mod TemplateDeletion
pub mod TemplateOperations
pub mod TemplateReconcile
pub mod Snapshot
pub mod SnapshotPolicy
pub mod Connection
pub mod DownloadOutcomes
pub mod TemplateOutcomes
pub mod SnapshotOutcomes
pub mod SecretUsers
