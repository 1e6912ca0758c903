-- ===== src/Messages/Dns.antt =====
-- core/src/messages/dns.rs. Durations are in seconds.
use spawner.Prelude.{ℕ, ◌-◌}
use spawner.Prelude.Text.{Text, codes}
use spawner.Types.{ClusterName}

abbrev pub ttl_buffer_seconds : ℕ
ttl_buffer_seconds = 10

pub data DnsRecordType : Type 0 where
  a txt : DnsRecordType

-- `Display` prints the name of the variant.
unfoldable pub to_string : DnsRecordType → Text
to_string a = codes "A"
to_string txt = codes "TXT"

pub record SetDnsRecord : Type 0 where
  pub cluster : ClusterName
  pub kind : DnsRecordType
  pub name : Text
  pub value : Text

unfoldable pub ttl_seconds : ℕ
ttl_seconds = 60

unfoldable pub ttl : ℕ
unfolding ttl_seconds
ttl = ttl_seconds

-- The constants make the subtraction exact.
unfoldable pub send_period : ℕ
unfolding ttl_seconds
send_period = ttl_seconds - ttl_buffer_seconds
