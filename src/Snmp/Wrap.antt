-- ===== src/Snmp/Wrap.antt =====
-- `rate_bps` of backend/services/snmp.py on a counter of 32 bits that turns over.
use lan_manager.Prelude.{ℕ, ◌+◌, ◌*◌, ◌%◌, ◌^◌, ◌<◌, ◌≡◌, true, some, arith}
use lan_manager.Snmp.{Reading, c32, octets_between, restarted, rate_bps}

-- The reading, at time `t`, of a counter of 32 bits of a device that has sent `octets` so far and
-- has been up for `uptime` seconds.
abbrev pub reading : ℕ → ℕ → ℕ → Reading
reading octets t uptime = record {
  octets = some (octets % 2 ^ 32);
  t = t;
  uptime_s = some uptime;
  bits = 32;
}

pub octets_between-mod :
    (p d : ℕ) → d < c32 → octets_between (p % 2 ^ 32) ((p + d) % 2 ^ 32) true ≡ some d
unfolding octets_between
octets_between-mod p d h = ground arith

-- Of two readings with less than 2^32 octets between them, the later one of the same run of the
-- device, `rate_bps` has the octets that were sent, whether the counter turned over or not.
pub rate_bps-reading :
    (sent more t dt uptime du : ℕ)
    → more < c32
    → 0 < dt
    → rate_bps (some (reading sent t uptime)) (reading (sent + more) (t + dt) (uptime + du))
      ≡ some (more * 8, dt)
unfolding rate_bps restarted
rate_bps-reading sent more t dt uptime du small later =
    ground (arith, octets_between-mod sent more small)
