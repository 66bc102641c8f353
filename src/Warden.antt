-- ===== src/Warden.antt =====
-- go/warden: what may run on the host.
pub mod KeyId
pub mod State
pub mod Source
pub mod Units
pub mod Admission
pub mod AdmitServer
pub mod Closing
pub mod Attach
pub mod Reconcile
pub mod Life
mod Tests
