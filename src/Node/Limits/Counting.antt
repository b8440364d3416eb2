-- ===== src/Node/Limits/Counting.antt =====
-- The count of connections of each IP address: `AddIP` and `RemoveIP` of http_server.go.
use webrtc_cdn.Prelude.{
  ◌+◌, ◌-◌, ◌^◌, ◌<◌, true, ◌&&◌, Str, ◌≡◌, ◌↔◌, arith, str_eq, str_eq_iff, if◌then◌else◌,
  lookup-insert, lookup-delete, str_key,
}
use webrtc_cdn.Machine.State.{WebrtcCdnNode}
use webrtc_cdn.Messages.Client.{inc32}
use webrtc_cdn.Node.Limits.{count_of, add_ip, remove_ip}

-- What `AddIP` does to every count, for a limit that fits a uint32: it admits the address exactly when
-- its count is below the limit, adds one to its count if so, and keeps every other count.
pub count_of-add_ip :
    (ip other : Str) (n : WebrtcCdnNode)
    → n.ip_limit < 2 ^ 32
    → (count_of other (add_ip ip n).0
        ≡ (if str_eq ip other && (add_ip ip n).1 then count_of ip n + 1 else count_of other n))
      × (((add_ip ip n).1 ≡ true) ↔ (count_of ip n < n.ip_limit))
unfolding add_ip count_of
count_of-add_ip ip other n h =
    ground (arith, lookup-insert ip other (inc32 (count_of ip n)) n.ip_count)

-- What `RemoveIP` does to every count: it takes one from that of the address, if there is one, and
-- keeps every other.
pub count_of-remove_ip :
    (ip other : Str) (n : WebrtcCdnNode)
    → count_of other (remove_ip ip n)
      ≡ (if str_eq ip other then count_of ip n - 1 else count_of other n)
unfolding remove_ip count_of
count_of-remove_ip ip other n = ground (
  arith,
  lookup-insert ip other (count_of ip n - 1) n.ip_count,
  lookup-delete ip other n.ip_count,
  str_eq_iff ip other,
)
