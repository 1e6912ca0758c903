-- ===== src/Messages/Cert.antt =====
-- core/src/messages/cert.rs.
use spawner.Prelude.Text.{Text}
use spawner.Types.{ClusterName}

pub record SetAcmeDnsRecord : Type 0 where
  pub cluster : ClusterName
  pub value : Text
